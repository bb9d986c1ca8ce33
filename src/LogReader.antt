-- ===== src/LogReader.antt =====
-- apps/agent/src/service/log_reader.cpp: the last lines of a log file, read in growing windows from
-- its end. The file is a parameter: its content does not change while it is read.
pub mod Suffix
use aegis_desk.Prelude.{
  ℕ, zero, suc, ◌+◌, ◌*◌, ◌-◌, Bool, true, false, Option, none, some, List, [], ◌∷◌, ◌++◌, ◌||◌,
  if◌then◌else◌, ltb, leb, ◌==◌, is_empty, length, drop,
}
use Prim.Native.Nat.{min}
use aegis_desk.Prelude.Text.{Str, text}

-- What the file system says of the path.
pub data LogFile : Type 0 where
  missing : LogFile
  without_size unopened : Str → LogFile
  unseekable : Str → Str → LogFile
  readable : Str → LogFile

-- The `std::getline` loop, with the characters of the line so far. At the end of the input a line
-- counts only if it has characters.
unfoldable pub get_lines : Str → Str → List Str
get_lines line [] = if is_empty line then [] else line ∷ []
get_lines line (c ∷ s) =
    let next_line = get_lines [] s in
    let longer = get_lines (line ++ (c ∷ [])) s in if c == b'\n' then line ∷ next_line else longer

-- `line.pop_back()` where the last character is a carriage return.
unfoldable pub pop_carriage_return : Str → Str
pop_carriage_return [] = []
pop_carriage_return (c ∷ s) =
    let rest = pop_carriage_return s in
    if is_empty s then (if c == b'\r' then [] else c ∷ []) else c ∷ rest

-- The body of the loop of `KeepLastLines` behind `getline`.
unfoldable pub keep_line : ℕ → List Str → Str → List Str
keep_line max_lines lines line =
    (if length lines == max_lines then drop 1 lines else lines) ++ (pop_carriage_return line ∷ [])

unfoldable pub keep_from : ℕ → List Str → List Str → List Str
keep_from max_lines lines [] = lines
keep_from max_lines lines (line ∷ rest) = keep_from max_lines (keep_line max_lines lines line) rest

unfoldable pub keep_last_lines : Str → ℕ → List Str
keep_last_lines content max_lines = keep_from max_lines [] (get_lines [] content)

-- What follows the first newline.
unfoldable pub after_newline : Str → Option Str
after_newline [] = none
after_newline (c ∷ s) = let rest = after_newline s in if c == b'\n' then some s else rest

abbrev pub initial_read_window_bytes : ℕ
initial_read_window_bytes = 65536

-- The loop over the windows; none when the fuel runs out.
unfoldable pub read_window : ℕ → Str → ℕ → ℕ → Option (List Str)
read_window zero content max_lines window = none
read_window (suc fuel) content max_lines window =
    let wider = read_window fuel content max_lines (min (length content) (window * 2)) in
    let start = length content - window in
    let buffer = drop start content in
    if start == 0 then some (keep_last_lines buffer max_lines) else elim (after_newline buffer) [
      | none ↦ if window == length content then some [] else wider
      | some rest ↦
          if leb max_lines (length (keep_last_lines rest max_lines))
          then some (keep_last_lines rest max_lines)
          else wider
    ]

-- Each round at least doubles a window of at least one byte, up to the size of the file.
unfoldable pub read_content : Str → ℕ → Option (List Str)
read_content content max_lines =
    if length content == 0
    then some []
    else read_window (suc (length content)) content max_lines
        (min (length content) initial_read_window_bytes)

-- `ReadLastLines`: the lines and the error text.
unfoldable pub read_last_lines : LogFile → ℕ → Option (List Str) × Str
read_last_lines file max_lines = if max_lines == 0 then (some [], []) else elim file [
  | missing ↦ (some [], [])
  | without_size message ↦ (some [], text "failed to get log file size: " ++ message)
  | unopened path ↦ (some [], text "failed to open log file: " ++ path)
  | unseekable path content ↦ (some [], text "failed to seek log file: " ++ path)
  | readable content ↦ (read_content content max_lines, [])
]

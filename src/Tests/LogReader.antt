-- ===== src/Tests/LogReader.antt =====
-- The last two of three lines.
use aegis_desk.Prelude.{◌≡◌, some, List, [], ◌∷◌}
use aegis_desk.Prelude.Text.{Str, text}
use aegis_desk.LogReader.{readable, read_last_lines}
use aegis_desk.LogReader.Suffix.{read_last_lines-last}

abbrev lines : List Str
lines = text "two" ∷ (text "three" ∷ [])

read_last_lines-last_example :
    read_last_lines (readable (text "one\r\ntwo\nthree")) 2 ≡ (some lines, [])
unfolding text aegis_desk.LogReader.get_lines aegis_desk.LogReader.pop_carriage_return
read_last_lines-last_example = read_last_lines-last (text "one\r\ntwo\nthree") 2

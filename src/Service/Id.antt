-- ===== src/Service/Id.antt =====
-- apps/agent/include/agent/service/service_id.h.
use aegis_desk.Prelude.{
  ℕ, Bool, true, false, ◌&&◌, ◌||◌, [], ◌∷◌, leb, ltb, ◌==◌, if◌then◌else◌, length, is_empty,
}
use aegis_desk.Prelude.Text.{Str}

-- The loop `for (const char ch : id) if (!valid) return false;`.
unfoldable pub all_chars : (ℕ → Bool) → Str → Bool
all_chars valid [] = true
all_chars valid (c ∷ s) = let rest = all_chars valid s in if valid c then rest else false

abbrev pub is_letter_or_digit : ℕ → Bool
is_letter_or_digit ch =
    (leb b'a' ch && leb ch b'z') || (leb b'A' ch && leb ch b'Z') || (leb b'0' ch && leb ch b'9')

abbrev pub is_service_id_char : ℕ → Bool
is_service_id_char ch = is_letter_or_digit ch || ch == b'_' || ch == b'-'

unfoldable pub is_valid_service_id : Str → Bool
unfolding all_chars
is_valid_service_id id =
    if is_empty id || ltb 64 (length id) then false else all_chars is_service_id_char id

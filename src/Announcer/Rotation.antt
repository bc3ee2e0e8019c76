-- ===== src/Announcer/Rotation.antt =====
-- `_next_message` of bundled-addons/defaults/announcer.py: the messages in rotation.

use Prim.Native.Nat.{max}
use jedi_academy_pterodactyl.Prelude.{
  length, ℕ, zero, suc, ◌+◌, ◌%◌, Option, none, some, List, [], ◌∷◌,
}
use jedi_academy_pterodactyl.Text.{Text}

abbrev pub get_elem? : List Text → ℕ → Option Text
get_elem? [] i = none
get_elem? (x ∷ xs) zero = some x
get_elem? (x ∷ xs) (suc i) = get_elem? xs i

-- The message, and the cursor after it.
unfoldable pub next_message : List Text → ℕ → Option Text × ℕ
next_message [] cursor = (none, cursor)
next_message (m ∷ ms) cursor =
    (get_elem? (m ∷ ms) (cursor % length (m ∷ ms)), (cursor + 1) % max 1 (length (m ∷ ms)))

-- ===== src/Text/Equality.antt =====
-- The test `same` and equality of texts.

use jedi_academy_pterodactyl.Prelude.{◌≡◌, refl, ◌↔◌, true, ◌∷◌, arith}
use jedi_academy_pterodactyl.Text.Defs.{Text, same}

pub same_iff : (s t : Text) → (same s t ≡ true) ↔ (s ≡ t)
unfolding same
same_iff (a ∷ s) (b ∷ t) = ground (arith, same_iff s t)
same_iff _ _ = ground arith

pub same_refl : (s : Text) → same s s ≡ true
same_refl s = (same_iff s s).1 refl

-- ===== src/Text/Strip.antt =====
-- `str.strip`.

use jedi_academy_pterodactyl.Prelude.{
  ℕ, ◌≡◌, refl, ap, ◌∙◌, false, ◌&&◌, inl, inr, [], ◌∷◌, arith, is_empty, Bool-cases, All,
}
use jedi_academy_pterodactyl.Text.Defs.{Text, is_space, lstrip, rstrip, strip}

abbrev StartsClean : Text → Type 0
StartsClean [] = Unit
StartsClean (c ∷ cs) = is_space c ≡ false

lstrip-StartsClean : (s : Text) → StartsClean (lstrip s)
unfolding lstrip
lstrip-StartsClean [] = tt
lstrip-StartsClean (c ∷ cs) = ground (arith, lstrip-StartsClean cs)

lstrip_of_clean : (s : Text) → StartsClean s → lstrip s ≡ s
unfolding lstrip
lstrip_of_clean [] h = refl
lstrip_of_clean (c ∷ cs) h = ground arith

rstrip-StartsClean : (s : Text) → StartsClean s → StartsClean (rstrip s)
unfolding rstrip
rstrip-StartsClean [] h = tt
rstrip-StartsClean (c ∷ cs) h = elim (Bool-cases (is_empty (rstrip cs))) [
  | inl e ↦ rw (e, h) h
  | inr e ↦ rw e h
]

rstrip-rstrip : (s : Text) → rstrip (rstrip s) ≡ rstrip s
unfolding rstrip
rstrip-rstrip [] = refl
rstrip-rstrip (c ∷ cs) = ground (arith, rstrip-rstrip cs)

pub strip-strip : (s : Text) → strip (strip s) ≡ strip s
unfolding strip
strip-strip s =
    ap rstrip (lstrip_of_clean _ (rstrip-StartsClean _ (lstrip-StartsClean s)))
    ∙ rstrip-rstrip (lstrip s)

-- A property of every character holds after stripping.
module _ {κ} (P : ℕ → Type κ) where
  All-lstrip : (s : Text) → All P s → All P (lstrip s)
  unfolding lstrip
  All-lstrip [] h = h
  All-lstrip (c ∷ cs) h = elim (Bool-cases (is_space c)) [
    | inl e ↦ rw e (All-lstrip cs h.1)
    | inr e ↦ rw e h
  ]

  All-rstrip : (s : Text) → All P s → All P (rstrip s)
  unfolding rstrip
  All-rstrip [] h = h
  All-rstrip (c ∷ cs) h = elim (Bool-cases (is_empty (rstrip cs) && is_space c)) [
    | inl e ↦ rw e tt
    | inr e ↦ rw e (h.0, All-rstrip cs h.1)
  ]

  pub All-strip : (s : Text) → All P s → All P (strip s)
  unfolding strip
  All-strip s h = All-rstrip _ (All-lstrip s h)

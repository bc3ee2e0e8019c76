-- ===== src/Guard/Address.antt =====
-- `bare_ip` of bundled-addons/examples/deprecated/50-rcon-live-guard.py.
use jedi_academy_pterodactyl.Prelude.{
  ◌==◌, if◌then◌else◌, is_empty, ℕ, ◌≡◌, refl, Bool, true, false, not, ◌&&◌, Option, none, some, [],
  ◌∷◌, ◌++◌, arith,
}
use jedi_academy_pterodactyl.Text.{Text, strip}
use jedi_academy_pterodactyl.Python.Json.{Python}

-- The text before the first occurrence of a character, if there is one.
before_first : ℕ → Text → Option Text
before_first x [] = none
before_first x (c ∷ cs) = elim (c == x) [
  | true ↦ some []
  | false ↦ elim (before_first x cs) [ none ↦ none | some s ↦ some (c ∷ s) ]
]

-- `text.rsplit(char, 1)`, where `none` means that the character does not occur
pub split_last : ℕ → Text → Option (Text × Text)
split_last x [] = none
split_last x (c ∷ cs) = elim (split_last x cs) [
  | some (left, right) ↦ some (c ∷ left, right)
  | none ↦ if c == x then some ([], cs) else none
]

-- The text behind `[`, up to `]` where there is one.
bracketed : Text → Text
unfolding before_first
bracketed tail = elim (before_first b']' tail) [ none ↦ tail | some host ↦ host ]

module _ ⦃py : Python⦄ where
  pub all_digits : Text → Bool
  all_digits [] = true
  all_digits (c ∷ cs) = py.is_digit c && all_digits cs

  -- `text.isdigit()`
  unfoldable pub isdigit : Text → Bool
  unfolding all_digits
  isdigit s = not (is_empty s) && all_digits s

  without_port : Text → Option (Text × Text) → Text
  unfolding isdigit
  without_port addr none = addr
  without_port addr (some (host, port)) = if isdigit port then host else addr

  of_stripped : Text → Text
  unfolding bracketed without_port split_last
  of_stripped [] = []
  of_stripped (c ∷ cs) =
      if c == b'[' then bracketed cs else without_port (c ∷ cs) (split_last b':' (c ∷ cs))

  unfoldable pub bare_ip : Text → Text
  unfolding of_stripped
  bare_ip address = of_stripped (strip address)

  split_last-digits : (s : Text) → all_digits s ≡ true → split_last b':' s ≡ none
  unfolding split_last all_digits
  split_last-digits [] h = refl
  split_last-digits (c ∷ cs) h =
      ground (arith, h, split_last-digits cs, py.is_digit_lem b':' (omega arith))

  pub split_last-append :
      (s t : Text) → all_digits t ≡ true → split_last b':' (s ++ (b':' ∷ t)) ≡ some (s, t)
  unfolding split_last
  split_last-append [] t h = rw (split_last-digits t h) refl
  split_last-append (c ∷ cs) t h = rw (split_last-append cs t h) refl

  -- An address that white space does not surround and that no bracket begins loses a port of
  -- digits behind its last colon, and nothing else, whatever stands before that colon.
  pub bare_ip-port :
      (c : ℕ) (host port : Text)
      → strip (c ∷ (host ++ (b':' ∷ port))) ≡ c ∷ (host ++ (b':' ∷ port))
      → (c == b'[') ≡ false
      → isdigit port ≡ true
      → bare_ip (c ∷ (host ++ (b':' ∷ port))) ≡ c ∷ host
  unfolding bare_ip isdigit
  bare_ip-port c host port clean open_start digits =
      rw (clean, open_start, split_last-append (c ∷ host) port (ground (arith, digits)), digits)
        refl

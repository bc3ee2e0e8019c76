-- ===== src/Cooldown.antt =====
-- Cooldowns per key: the dict from a key to the time of its last action that several addons keep
-- (bundled-addons/examples/deprecated/20-live-team-announcer.py and 50-rcon-live-guard.py). List (K × ℕ)
-- are in microseconds.
use jedi_academy_pterodactyl.Prelude.{
  if◌then◌else◌, ℕ, ◌+◌, ◌≤◌, ◌≡◌, refl, ap, ◌∙◌, ◌↔◌, Bool, true, false, Option, none, some, List,
  [], ◌∷◌, arith, ◌&&◌,
}
use jedi_academy_pterodactyl.Text.{Text, same}
use jedi_academy_pterodactyl.Text.Equality.{same_iff}

-- Equality of keys.
pub record Key (K : Type 0) : Type 0 where
  pub same_key : K → K → Bool
  pub same_key_iff : (a b : K) → (same_key a b ≡ true) ↔ (a ≡ b)

module _ {K : Type 0} ⦃k : Key K⦄ where
  -- `times.get(key)`
  unfoldable pub last_time : K → List (K × ℕ) → Option ℕ
  last_time key [] = none
  last_time key ((j, at) ∷ d) = if k.same_key j key then some at else last_time key d

  -- `times[key] = at`
  unfoldable pub set_time : K → ℕ → List (K × ℕ) → List (K × ℕ)
  set_time key at [] = (key, at) ∷ []
  set_time key at ((j, old) ∷ d) =
      let rest = set_time key at d in if k.same_key j key then (j, at) ∷ d else (j, old) ∷ rest

  -- `times.get(key, 0.0)`
  unfoldable pub time_or_zero : K → List (K × ℕ) → ℕ
  unfolding last_time
  time_or_zero key d = elim (last_time key d) [ none ↦ 0 | some at ↦ at ]

  same_key_trade : (h i j : K) → k.same_key h i ≡ true → k.same_key h j ≡ k.same_key i j
  same_key_trade h i j e = ap (λ t. k.same_key t j) ((k.same_key_iff h i).0 e)

  same_key_refl : (i : K) → k.same_key i i ≡ true
  same_key_refl i = (k.same_key_iff i i).1 refl

  same_key_apart :
      (h i j : K) → k.same_key h i ≡ false → k.same_key h j ≡ true → k.same_key i j ≡ false
  same_key_apart h i j e f =
      ground (arith, same_key_trade h j i f, same_key_trade i j i, same_key_refl i)

  pub last_time-set_time :
      (i j : K) (at : ℕ) (d : List (K × ℕ))
      → last_time j (set_time i at d) ≡ (if k.same_key i j then some at else last_time j d)
  unfolding last_time set_time
  last_time-set_time i j at [] = refl
  last_time-set_time i j at ((h, old) ∷ d) =
      ground (arith, last_time-set_time i j at d, same_key_trade h i j, same_key_apart h i j)

  -- In a log of actions, the last one first, each keeps the distance `gap` from the one of its key
  -- before it.
  unfoldable pub IsSpaced : ℕ → List (K × ℕ) → Type 0
  unfolding last_time
  IsSpaced gap [] = Unit
  IsSpaced gap ((key, at) ∷ l) =
      ((before : ℕ) → last_time key l ≡ some before → before + gap ≤ at) × IsSpaced gap l

  -- The dict is the view of the log that the cooldown needs.
  abbrev pub Agrees : List (K × ℕ) → List (K × ℕ) → Type 0
  Agrees d l = (key : K) → last_time key d ≡ last_time key l

  pub Agrees-set_time :
      (key : K) (at : ℕ) (d : List (K × ℕ)) (l : List (K × ℕ))
      → Agrees d l
      → Agrees (set_time key at d) ((key, at) ∷ l)
  unfolding last_time
  Agrees-set_time key at d l h j =
      last_time-set_time key j at d ∙ ap (if◌then◌else◌ (k.same_key key j) (some at)) (h j)

  -- An action that the test let pass is spaced.
  pub IsSpaced-cons :
      (gap : ℕ) (key : K) (now : ℕ) (d : List (K × ℕ)) (l : List (K × ℕ))
      → Agrees d l
      → time_or_zero key d + gap ≤ now
      → IsSpaced gap l
      → IsSpaced gap ((key, now) ∷ l)
  unfolding IsSpaced time_or_zero
  IsSpaced-cons gap key now d l h enough spaced =
      ((λ before e. ground (arith, enough, h key, e)), spaced)

instance abbrev pub text_key : Key Text
text_key = record { same_key = same; same_key_iff = same_iff }

unfoldable pub same_pair : Text × Text → Text × Text → Bool
unfolding same
same_pair (a, b) (c, d) = same a c && same b d

pub same_pair_iff : (p q : Text × Text) → (same_pair p q ≡ true) ↔ (p ≡ q)
unfolding same_pair
same_pair_iff (a, b) (c, d) = ground (arith, same_iff a c, same_iff b d)

instance abbrev pub pair_key : Key (Text × Text)
pair_key = record { same_key = same_pair; same_key_iff = same_pair_iff }

-- ===== src/Regex.antt =====
-- The regular expressions of Python's `re`, as far as the addons use them, by backtracking.
-- A repetition consumes at least one character in each round, as in every pattern of the addons.

use mathlib.Core.Option
use jedi_academy_pterodactyl.Prelude.{
  ◌==◌, if◌then◌else◌, is_some, length, take, ℕ, zero, suc, ◌-◌, Bool, true, false, not, Option,
  none, some, List, [], ◌∷◌, ◌++◌,
}
use jedi_academy_pterodactyl.Text.{Text, is_space}
use jedi_academy_pterodactyl.Python.Json.{Python}

pub data Re : Type 0 where
  one : (ℕ → Bool) → Re
  seq alt : Re → Re → Re
  -- greedy or not, the least number of rounds, and the largest if there is one
  repeat : Bool → ℕ → Option ℕ → Re → Re
  capture : ℕ → Re → Re
  -- `^`, `$` and `\b`
  start finish boundary : Re

-- A position in the text, and the groups matched so far, the last one first.
pub record At : Type 0 where
  pub before : Option ℕ
  pub rest : Text
  pub groups : List (ℕ × Text)

abbrev pub starting : Text → At
starting s = record { before = none; rest = s; groups = [] }

-- The text between two positions.
abbrev consumed : Text → Text → Text
consumed s t = take (length s - length t) s

-- One round after another, then what follows. The first argument bounds the rounds.
rounds :
    ℕ
    → Bool
    → ((At → Option At) → At → Option At)
    → (At → Option At)
    → ℕ
    → Option ℕ
    → At
    → Option At
rounds zero greedy body go_on least most s = if least == 0 then go_on s else none
rounds (suc f) greedy body go_on (suc m) most s =
    body (λ t. rounds f greedy body go_on m (Option.map (λ n. n - 1) most) t) s
rounds (suc f) greedy body go_on zero (some zero) s = go_on s
rounds (suc f) true body go_on zero most s =
    elim (body (λ t. rounds f true body go_on zero (Option.map (λ n. n - 1) most) t) s) [
      | some t ↦ some t
      | none ↦ go_on s
    ]
rounds (suc f) false body go_on zero most s = elim (go_on s) [
  | some t ↦ some t
  | none ↦ body (λ t. rounds f false body go_on zero (Option.map (λ n. n - 1) most) t) s
]

take_one : (ℕ → Bool) → (At → Option At) → Text → At → Option At
take_one p go_on [] s = none
take_one p go_on (c ∷ cs) s = elim (p c) [
  | true ↦ go_on (record s { before = some c; rest = cs })
  | false ↦ none
]

-- `$` also stands before a newline that ends the text.
abbrev at_finish : Text → Bool
at_finish [] = true
at_finish (c ∷ []) = c == b'\n'
at_finish _ = false

module _ ⦃py : Python⦄ where
  abbrev word_at : Option ℕ → Bool
  word_at none = false
  word_at (some c) = py.is_word c

  abbrev first : Text → Option ℕ
  first [] = none
  first (c ∷ cs) = some c

  abbrev differ : Bool → Bool → Bool
  differ true b = not b
  differ false b = b

  run : Re → (At → Option At) → At → Option At
  unfolding take_one rounds
  run (one p) go_on s = take_one p go_on s.rest s
  run (seq r q) go_on s = run r (run q go_on) s
  run (alt r q) go_on s = elim (run r go_on s) [ some t ↦ some t | none ↦ run q go_on s ]
  run (repeat greedy least most r) go_on s =
      rounds (suc (length s.rest)) greedy (run r) go_on least most s
  run (capture n r) go_on s =
      run r (λ t. go_on (record t { groups = (n, consumed s.rest t.rest) ∷ t.groups })) s
  run start go_on s = elim s.before [ none ↦ go_on s | some c ↦ none ]
  run finish go_on s = elim (at_finish s.rest) [ true ↦ go_on s | false ↦ none ]
  run boundary go_on s = elim (differ (word_at s.before) (word_at (first s.rest))) [
    | true ↦ go_on s
    | false ↦ none
  ]

  -- `pattern.match(text)`
  unfoldable pub match_start : Re → Text → Option At
  unfolding run
  match_start r s = run r some (starting s)

  search_from : Re → Option ℕ → Text → Option At
  unfolding run
  search_from r prev [] = run r some (record { before = prev; rest = []; groups = [] })
  search_from r prev (c ∷ cs) =
      elim (run r some (record { before = prev; rest = c ∷ cs; groups = [] })) [
        | some t ↦ some t
        | none ↦ search_from r (some c) cs
      ]

  -- `pattern.search(text)`
  unfoldable pub search_re : Re → Text → Option At
  unfolding search_from
  search_re r s = search_from r none s

  -- `pattern.sub(new, text)`, where no match is empty; the first argument bounds the rounds
  sub_from : ℕ → Re → Text → Option ℕ → Text → Text
  unfolding run
  sub_from zero r new prev s = s
  sub_from (suc f) r new prev [] = []
  sub_from (suc f) r new prev (c ∷ cs) =
      elim (run r some (record { before = prev; rest = c ∷ cs; groups = [] })) [
        | some t ↦ new ++ sub_from f r new t.before t.rest
        | none ↦ c ∷ sub_from f r new (some c) cs
      ]

  unfoldable pub sub_re : Re → Text → Text → Text
  unfolding sub_from
  sub_re r new s = sub_from (length s) r new none s

  -- A literal under `re.IGNORECASE`.
  abbrev pub any_case : Text → Re
  any_case [] = repeat true 0 (some 0) start
  any_case (c ∷ []) = one (λ d. py.same_letter c d)
  any_case (c ∷ cs) = seq (one (λ d. py.same_letter c d)) (any_case cs)

  -- `\d`
  abbrev pub digit : Re
  digit = one (λ c. is_some (py.digit_value c))

abbrev pub found : Option At → Bool
found = is_some

-- `match.group(n)`
unfoldable pub group_in : ℕ → List (ℕ × Text) → Option Text
group_in n [] = none
group_in n ((m, s) ∷ gs) = if m == n then some s else group_in n gs

abbrev pub group_of : ℕ → At → Option Text
group_of n t = group_in n t.groups

-- A literal.
abbrev pub exactly : Text → Re
exactly [] = repeat true 0 (some 0) start
exactly (c ∷ []) = one (λ d. d == c)
exactly (c ∷ cs) = seq (one (λ d. d == c)) (exactly cs)

-- `\s`, `.` and the repetitions `*`, `+`, `?`
abbrev pub space : Re
space = one (λ c. is_space c)

abbrev pub dot : Re
dot = one (λ c. not (c == b'\n'))

abbrev pub star : Re → Re
star = repeat true 0 none

abbrev pub plus : Re → Re
plus = repeat true 1 none

abbrev pub maybe : Re → Re
maybe = repeat true 0 (some 1)

infixr 60 ◌⨾◌
abbrev pub ◌⨾◌ : Re → Re → Re
r ⨾ q = seq r q

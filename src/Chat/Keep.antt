-- ===== src/Chat/Keep.antt =====
-- `_env_int` and `KEEP_PLAIN_DAYS` of bundled-addons/defaults/chatlogger.py.
use jedi_academy_pterodactyl.Prelude.{
  if◌then◌else◌, Bool-cases, is_empty, max_ℤ, ℤ, pos, negsuc, ℕ, ◌≤◌, ◌≡◌, refl, inl, inr, Option,
  none, some, arith, zero, suc,
}
use jedi_academy_pterodactyl.Text.{Text, codes, strip}
use jedi_academy_pterodactyl.Config.{Environment}
use jedi_academy_pterodactyl.Python.Json.{Python}
use jedi_academy_pterodactyl.Python.Number.{int_of_text}

abbrev at_least : ℤ → ℤ → Option ℤ → ℤ
at_least default minimum none = default
at_least default minimum (some value) = max_ℤ minimum value

module _ ⦃py : Python⦄ where
  unfoldable pub env_int : Environment → Text → ℤ → ℤ → ℤ
  unfolding int_of_text
  env_int env name default minimum = elim (env.getenv name) [
    | none ↦ default
    | some raw ↦
        if is_empty (strip raw) then default else at_least default minimum (int_of_text raw)
  ]

  unfoldable pub keep_plain_days : Environment → ℤ
  unfolding env_int
  keep_plain_days env = env_int env (codes "CHATLOGGER_KEEP_PLAIN_DAYS") (pos 7) (pos 1)

  at_least_one : (o : Option ℤ) → (n : ℕ) × (1 ≤ n) × (at_least (pos 7) (pos 1) o ≡ pos n)
  at_least_one none = (7, omega arith, refl)
  at_least_one (some (pos zero)) = (1, omega arith, refl)
  at_least_one (some (pos (suc n))) = (suc n, omega arith, ground arith)
  at_least_one (some (negsuc n)) = (1, omega arith, refl)

  -- Whatever the environment says, the logs of at least one day are kept.
  pub keep_plain_days-le : (env : Environment) → (n : ℕ) × (1 ≤ n) × (keep_plain_days env ≡ pos n)
  unfolding keep_plain_days
  keep_plain_days-le env =
      elim (env.getenv (codes "CHATLOGGER_KEEP_PLAIN_DAYS"))
        as (λ o.
          (n : ℕ) × (1 ≤ n)
          × ((elim o [
            | none ↦ pos 7
            | some raw ↦
                if is_empty (strip raw) then pos 7 else at_least (pos 7) (pos 1) (int_of_text raw)
          ])
              ≡ pos n)) [
                | none ↦ (7, omega arith, refl)
                | some raw ↦ elim (Bool-cases (is_empty (strip raw))) [
                  | inl e ↦ rw e (7, omega arith, refl)
                  | inr e ↦ rw e (at_least_one (int_of_text raw))
                ]
              ]

-- ===== src/Traced.antt =====
-- Calls that send RCON commands and may raise: what was sent before an exception stays sent.
use jedi_academy_pterodactyl.Prelude.{All, All-append, ◌≡◌, refl, List, [], ◌++◌}
use jedi_academy_pterodactyl.Text.{Text}
use jedi_academy_pterodactyl.Outcome.{Outcome, raises, returns}

-- The commands that were sent, in order, and the outcome.
pub record Traced {ℓ} (A : Type ℓ) : Type ℓ where
  pub commands : List Text
  pub outcome : Outcome A

abbrev pub of_outcome {ℓ} : {A : Type ℓ} → Outcome A → Traced A
of_outcome m = record { commands = []; outcome = m }

abbrev pub pure {ℓ} : {A : Type ℓ} → A → Traced A
pure a = record { commands = []; outcome = returns a }

-- The commands of the second call stand behind those of the first.
abbrev pub go_on {ℓ κ} :
    {A : Type ℓ} {B : Type κ} → List Text → Outcome A → (A → Traced B) → Traced B
go_on done (raises e) f = record { commands = done; outcome = raises e }
go_on done (returns a) f = record { commands = done ++ (f a).commands; outcome = (f a).outcome }

infixl 5 ◌>=>◌
abbrev pub ◌>=>◌ {ℓ κ} : {A : Type ℓ} {B : Type κ} → Traced A → (A → Traced B) → Traced B
m >=> f = go_on m.commands m.outcome f

-- A property of every command that was sent holds of a chain of calls.
pub All-go_on {ℓ κ} :
    {A : Type ℓ} {B : Type κ} (P : Text → Type 0) (m : Traced A) (f : A → Traced B)
    → All P m.commands
    → ((a : A) → m.outcome ≡ returns a → All P (f a).commands)
    → All P (m >=> f).commands
All-go_on {A = A} P m f h k = from m.outcome refl
  where
    from : (o : Outcome A) → m.outcome ≡ o → All P (go_on m.commands o f).commands
    from (raises e) q = h
    from (returns a) q = All-append P m.commands (f a).commands h (k a q)

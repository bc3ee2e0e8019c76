-- ===== src/Guard/Endures.antt =====
-- When the loop of bundled-addons/examples/deprecated/50-rcon-live-guard.py goes on.
use jedi_academy_pterodactyl.Prelude.{
  not, ◌||◌, All, ◌≡◌, Bool, true, false, ◌&&◌, Option, none, some, List, [], ◌∷◌, refl,
  if◌then◌else◌, ℤ, pos,
}
use jedi_academy_pterodactyl.Text.{Text, codes}
use jedi_academy_pterodactyl.Config.{Environment, load_own_file, overlay}
use jedi_academy_pterodactyl.Outcome.{
  Outcome, raises, Yields-bind, Yields-elim, Yields, Holds, of_Holds, returns, anything, Holds-bind,
}
use jedi_academy_pterodactyl.Python.Json.{str, nil, Items, cons, Python, null}
use jedi_academy_pterodactyl.Guard.Loop.{
  is_cooling, on_attempt, act, log_error, idle, Guard, Event, on_guard_line, guard_loop,
}
use jedi_academy_pterodactyl.Guard.Config.{
  normalise_guard, load_guard_config, compile_patterns, Pattern, Compiler, GuardConfig,
  guard_defaults, guard_config_path, usable, append_usable, patterns_of,
}
use jedi_academy_pterodactyl.Guard.Detect.{
  is_ignored_ip, strip_ansi, try_detect_rcon_attempt, command_group, detect_in, ip_group,
  attempt_of, stripped_group,
}
use jedi_academy_pterodactyl.Guard.Address.{bare_ip}
use jedi_academy_pterodactyl.Cooldown.{time_or_zero, text_key}
use jedi_academy_pterodactyl.Guard.Enforce.{enforce_rcon_attempt}
use jedi_academy_pterodactyl.Python.Dict.{Dict, get_or}
use jedi_academy_pterodactyl.Scalars.{safe_int}

abbrev takes_part : Option Text → Bool
takes_part none = false
takes_part (some s) = true

-- The group `ip` takes part in every match, and so does the group `command` of a pattern that has
-- one.
abbrev pub IsComplete : Pattern → Type 0
IsComplete p =
    (s : Text) (ip command : Option Text)
    → p.find s ≡ some (ip, command)
    → (takes_part ip && (not p.has_command || takes_part command)) ≡ true

pub HasIp : Pattern → Type 0
HasIp p = p.has_ip ≡ true

append_usable-All :
    (o : Option Pattern) (ps : List Pattern)
    → All HasIp ps
    → All HasIp (append_usable (usable o) ps)
unfolding append_usable usable HasIp
append_usable-All none ps h = h
append_usable-All (some p) ps h = branch p.has_ip refl
  where
    branch : (b : Bool) → p.has_ip ≡ b → All HasIp (append_usable (if b then some p else none) ps)
    branch true e = (e, h)
    branch false e = h

pub compile_patterns-All :
    (compile : Compiler) (vs : Items) → All HasIp (compile_patterns compile vs)
unfolding compile_patterns
compile_patterns-All compile nil = tt
compile_patterns-All compile (cons (str raw) rest) =
    append_usable-All (compile raw) _ (compile_patterns-All compile rest)
compile_patterns-All compile (cons v rest) = compile_patterns-All compile rest

abbrev HaveIp : GuardConfig → Type 0
HaveIp config = All HasIp config.compiled_patterns

module _ ⦃py : Python⦄ where
  normalise_guard-All : (compile : Compiler) (c : Dict) → Holds HaveIp (normalise_guard compile c)
  unfolding normalise_guard
  normalise_guard-All compile c =
      Holds-bind {A = ℤ} {B = GuardConfig} (λ _. Unit) HaveIp
        (safe_int (get_or c (codes "rcon_timeout_seconds") null) (pos 3) (pos 1)) _ (anything _)
        (λ timeout _.
          Holds-bind {A = ℤ} {B = GuardConfig} (λ _. Unit) HaveIp
            (safe_int (get_or c (codes "min_seconds_between_actions") null) (pos 10) (pos 0)) _
            (anything _) (λ gap _. compile_patterns-All compile (patterns_of c)))

  load_guard_config-All :
      (compile : Compiler) (env : Environment) → Holds HaveIp (load_guard_config compile env)
  unfolding load_guard_config
  load_guard_config-All compile env =
      Holds-bind (λ _. Unit) HaveIp (load_own_file env guard_config_path) _ (anything _)
        (λ loaded _. normalise_guard-All compile (overlay guard_defaults loaded))

  command_group-Yields :
      (b : Bool) (command : Option Text)
      → (not b || takes_part command) ≡ true
      → Yields (λ _. Unit) (command_group b command)
  unfolding command_group stripped_group
  command_group-Yields false command h = tt
  command_group-Yields true (some s) h = tt
  command_group-Yields true none h = cc

  attempt_of-Yields :
      (p : Pattern) (ip command : Option Text)
      → HasIp p
      → (takes_part ip && (not p.has_command || takes_part command)) ≡ true
      → Yields (λ _. Unit) (attempt_of p (ip, command))
  unfolding attempt_of ip_group HasIp stripped_group
  attempt_of-Yields p (some s) command h k = rw h (
      Yields-bind (λ _. Unit) (λ _. Unit) (command_group p.has_command command) _
        (command_group-Yields p.has_command command k) (λ _ _. tt))
  attempt_of-Yields p none command h k = cc

  detect_in-returns :
      (cleaned : Text) (ps : List Pattern)
      → All HasIp ps
      → All IsComplete ps
      → Yields (λ _. Unit) (detect_in cleaned ps)
  unfolding detect_in attempt_of ip_group command_group
  detect_in-returns cleaned [] h k = tt
  detect_in-returns cleaned (p ∷ ps) h k =
      branch (p.find cleaned) refl (detect_in-returns cleaned ps h.1 k.1)
    where
      branch :
          (o : Option (Option Text × Option Text))
          → p.find cleaned ≡ o
          → Yields (λ _. Unit) (detect_in cleaned ps)
          → Yields
              (λ _. Unit)
              (elim o [ none ↦ detect_in cleaned ps | some groups ↦ attempt_of p groups ])
      branch none e later = later
      branch (some (ip, command)) e later =
          attempt_of-Yields p ip command h.0 (k.0 cleaned ip command e)

  log_error-Yields : (r : Outcome Bool) → Yields (λ _. Unit) (log_error none r)
  unfolding log_error
  log_error-Yields (returns done) = tt
  log_error-Yields (raises x) = tt

  act-Yields :
      (config : GuardConfig) (e : Event) (source : Text) (s : Guard)
      → e.log_fails ≡ none
      → Yields (λ _. Unit) (act config e source s)
  unfolding act
  act-Yields config e source s logs =
      Yields-bind {B = Guard} (λ _. Unit) (λ _. Unit)
        (log_error e.log_fails (enforce_rcon_attempt e.env e.net config source).outcome) _
        (rw logs (log_error-Yields (enforce_rcon_attempt e.env e.net config source).outcome))
        (λ _ _. tt)

  Yields-if :
      (b : Bool) (r q : Outcome Guard)
      → Yields (λ _. Unit) r
      → Yields (λ _. Unit) q
      → Yields (λ _. Unit) (if b then r else q)
  Yields-if true r q h k = h
  Yields-if false r q h k = k

  on_attempt-Yields :
      (config : GuardConfig) (e : Event) (detected : Option (Text × Option Text)) (s : Guard)
      → e.log_fails ≡ none
      → Yields (λ _. Unit) (on_attempt config e detected s)
  unfolding on_attempt
  on_attempt-Yields config e none s logs = tt
  on_attempt-Yields config e (some (source, attempted)) s logs =
      Yields-if (is_ignored_ip source config.ignore_ip_hosts) (returns s) _ tt (
        Yields-if
          (is_cooling config.min_seconds_between_actions
            (time_or_zero (bare_ip source) s.last_action_for_ip) e.now)
          (returns s) (act config e source s) tt (act-Yields config e source s logs))

  guard_loop-returns_from :
      (config : GuardConfig) (es : List Event) (s : Guard)
      → All HasIp config.compiled_patterns
      → All IsComplete config.compiled_patterns
      → All (λ e. e.log_fails ≡ none) es
      → Yields (λ _. Unit) (guard_loop config es s)
  unfolding guard_loop on_guard_line try_detect_rcon_attempt
  guard_loop-returns_from config [] s h k logs = tt
  guard_loop-returns_from config (e ∷ es) s h k logs =
      Yields-bind (λ _. Unit) (λ _. Unit) (on_guard_line config e s) _
        (Yields-bind (λ _. Unit) (λ _. Unit) (detect_in (strip_ansi e.raw) config.compiled_patterns)
          _ (detect_in-returns (strip_ansi e.raw) config.compiled_patterns h k)
          (λ detected _. on_attempt-Yields config e detected s logs.0))
        (λ s' _. guard_loop-returns_from config es s' h k logs.1)

  -- Whatever the configuration file, the environments, the network and the clock of a run: if in
  -- every match of a configured pattern the group `ip` takes part, and the group `command` too where
  -- the pattern has one, and if the writes to the worker's log return, then the run comes to the end
  -- of its lines, also where an enforcement raises.
  pub guard_loop-returns :
      (compile : Compiler) (env : Environment) (es : List Event) {config : GuardConfig}
      → load_guard_config compile env ≡ returns config
      → All IsComplete config.compiled_patterns
      → All (λ e. e.log_fails ≡ none) es
      → (s : Guard) × (guard_loop config es idle ≡ returns s)
  guard_loop-returns compile env es {config} loaded complete logs =
      let run =
        Yields-elim (λ _. Unit) (guard_loop config es idle)
          (guard_loop-returns_from config es idle
            (of_Holds HaveIp (load_guard_config-All compile env) loaded) complete logs) in
      (run.0, run.1)

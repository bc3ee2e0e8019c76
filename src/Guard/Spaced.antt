-- ===== src/Guard/Spaced.antt =====
-- Which attempts the loop of bundled-addons/examples/deprecated/50-rcon-live-guard.py acts on.
use jedi_academy_pterodactyl.Prelude.{
  if◌then◌else◌, All, ◌≡◌, refl, Bool, true, false, Option, none, some, List, [], ◌∷◌, ℤ, ℕ, ◌+◌,
  ◌≤◌, ◌<◌, arith,
}
use jedi_academy_pterodactyl.Text.{Text, is_one_of}
use jedi_academy_pterodactyl.Cooldown.{
  Agrees-set_time, IsSpaced, Agrees, text_key, time_or_zero, IsSpaced-cons, last_time, pair_key,
}
use jedi_academy_pterodactyl.Outcome.{anything, Holds, Holds-bind, of_Holds, returns}
use jedi_academy_pterodactyl.Live.Announce.{to_micros}
use jedi_academy_pterodactyl.Python.Json.{Python}
use jedi_academy_pterodactyl.Guard.Loop.{
  log_error, Event, is_cooling, act, Guard, on_attempt, guard_loop, idle, on_guard_line,
  guard_follow,
}
use jedi_academy_pterodactyl.Guard.Address.{bare_ip}
use jedi_academy_pterodactyl.Guard.Enforce.{enforce_rcon_attempt}
use jedi_academy_pterodactyl.Guard.Config.{GuardConfig}
use jedi_academy_pterodactyl.Guard.Detect.{try_detect_rcon_attempt, is_ignored_ip}
use jedi_academy_pterodactyl.Follow.{Follower, TailTurn}
use jedi_academy_pterodactyl.Follow.Paced.{follow-state}

cooled :
    (min_interval : ℤ) (last now : ℕ)
    → 0 < to_micros min_interval
    → is_cooling min_interval last now ≡ false
    → last + to_micros min_interval ≤ now
unfolding is_cooling
cooled min_interval last now positive h = ground (arith, positive, h)

module _ ⦃py : Python⦄ where
  -- The dict is the view of the actions, they are spaced, and no source of them is ignored.
  abbrev IsKept : GuardConfig → Guard → Type 0
  IsKept config s =
      Agrees s.last_action_for_ip s.acted
      × IsSpaced (to_micros config.min_seconds_between_actions) s.acted
      × All (λ (ip, at). is_one_of (py.lower ip) config.ignore_ip_hosts ≡ false) s.acted

  on_attempt-IsKept :
      (config : GuardConfig) (e : Event) (detected : Option (Text × Option Text)) (s : Guard)
      → 0 < to_micros config.min_seconds_between_actions
      → IsKept config s
      → Holds (IsKept config) (on_attempt config e detected s)
  unfolding on_attempt
  on_attempt-IsKept config e none s positive h = h
  on_attempt-IsKept config e (some (source, attempted)) s positive h =
      branch (is_ignored_ip source config.ignore_ip_hosts) refl
        (is_cooling config.min_seconds_between_actions
          (time_or_zero (bare_ip source) s.last_action_for_ip) e.now)
        refl
    where
      branch :
          (b : Bool)
          → is_ignored_ip source config.ignore_ip_hosts ≡ b
          → (c : Bool)
          → is_cooling config.min_seconds_between_actions
              (time_or_zero (bare_ip source) s.last_action_for_ip)
              e.now
            ≡ c
          → Holds
              (IsKept config)
              (if b then returns s else if c then returns s else act config e source s)
      branch true i c k = h
      branch false i true k = h
      branch false i false k =
          unfold act is_ignored_ip in
          Holds-bind (λ _. Unit) (IsKept config)
            (log_error e.log_fails (enforce_rcon_attempt e.env e.net config source).outcome) _
            (anything _)
            (λ _ _. (
              Agrees-set_time (bare_ip source) e.now s.last_action_for_ip s.acted h.0,
              IsSpaced-cons (to_micros config.min_seconds_between_actions) (bare_ip source) e.now
                  s.last_action_for_ip s.acted h.0
                  (cooled config.min_seconds_between_actions
                    (time_or_zero (bare_ip source) s.last_action_for_ip) e.now positive k)
                  h.1,
              (i, h.2),
            ))

  on_guard_line-IsKept :
      (config : GuardConfig) (e : Event) (s : Guard)
      → 0 < to_micros config.min_seconds_between_actions
      → IsKept config s
      → Holds (IsKept config) (on_guard_line config e s)
  unfolding on_guard_line
  on_guard_line-IsKept config e s positive h =
      Holds-bind (λ _. Unit) (IsKept config)
        (try_detect_rcon_attempt e.raw config.compiled_patterns) _ (anything _)
        (λ detected _. on_attempt-IsKept config e detected s positive h)

  guard_loop-IsKept :
      (config : GuardConfig) (es : List Event) (s : Guard)
      → 0 < to_micros config.min_seconds_between_actions
      → IsKept config s
      → Holds (IsKept config) (guard_loop config es s)
  unfolding guard_loop
  guard_loop-IsKept config [] s positive h = h
  guard_loop-IsKept config (e ∷ es) s positive h =
      Holds-bind (IsKept config) (IsKept config) (on_guard_line config e s) _
        (on_guard_line-IsKept config e s positive h)
        (λ s' k. guard_loop-IsKept config es s' positive k)

  -- Whatever tails and lines a run of the worker meets, if `min_seconds_between_actions` is positive
  -- and the run comes to its end: of two attempts from one address that it acts on, the second comes
  -- no sooner than that many seconds after the first, also when a tail has ended between them, and it
  -- acts on no attempt from an address of the ignore list.
  pub guard_follow-IsSpaced :
      (config : GuardConfig) (ts : List (TailTurn Event)) {f : Follower Guard}
      → 0 < to_micros config.min_seconds_between_actions
      → guard_follow config ts (record { state = idle; backoff = 1; slept = [] }) ≡ returns f
      → IsSpaced (to_micros config.min_seconds_between_actions) f.state.acted
        × All (λ (ip, at). is_one_of (py.lower ip) config.ignore_ip_hosts ≡ false) f.state.acted
  unfolding guard_follow IsSpaced last_time
  guard_follow-IsSpaced config ts positive ran =
      let kept =
        of_Holds (λ g. IsKept config g.state)
          (follow-state _ (guard_loop config) (IsKept config)
            (λ es s h. guard_loop-IsKept config es s positive h) ts
            (record { state = idle; backoff = 1; slept = [] }) ((λ key. refl), tt, tt))
          ran in
      (kept.1, kept.2)

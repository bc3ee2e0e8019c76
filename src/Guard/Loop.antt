-- ===== src/Guard/Loop.antt =====
-- The loop over the lines of the tail in `run_worker` of
-- bundled-addons/examples/deprecated/50-rcon-live-guard.py. Times are in microseconds.
use jedi_academy_pterodactyl.Prelude.{
  ltb, false, if◌then◌else◌, ℤ, ℕ, ◌+◌, Bool, ◌&&◌, Option, none, some, List, [], ◌∷◌,
}
use jedi_academy_pterodactyl.Text.{Text}
use jedi_academy_pterodactyl.Config.{Environment}
use jedi_academy_pterodactyl.Cooldown.{set_time, text_key, time_or_zero, pair_key}
use jedi_academy_pterodactyl.Outcome.{Outcome, returns, raises, Exception, ◌>>=◌}
use jedi_academy_pterodactyl.Live.Announce.{to_micros}
use jedi_academy_pterodactyl.Python.Json.{Python}
use jedi_academy_pterodactyl.Guard.Address.{bare_ip}
use jedi_academy_pterodactyl.Guard.Config.{GuardConfig}
use jedi_academy_pterodactyl.Guard.Enforce.{Net, enforce_rcon_attempt}
use jedi_academy_pterodactyl.Guard.Detect.{try_detect_rcon_attempt, is_ignored_ip}
use jedi_academy_pterodactyl.Follow.{follow, Follower, TailTurn}
use jedi_academy_pterodactyl.Guard.Runtime.{guard_tail_source}

-- A line of the tail, with the clock reading, the environment and the network of its event, and what
-- a write to the worker's log raises then, if it raises.
pub record Event : Type 0 where
  pub raw : Text
  pub now : ℕ
  pub env : Environment
  pub net : Net
  pub log_fails : Option Exception

-- The worker's memory, the attempts it acted on and the commands it sent, the last action first.
pub record Guard : Type 0 where
  pub last_action_for_ip : List (Text × ℕ)
  pub acted : List (Text × ℕ)
  pub sent : List (List Text)

abbrev pub idle : Guard
idle = record { last_action_for_ip = []; acted = []; sent = [] }

-- `min_interval > 0 and (now - last) < min_interval`
unfoldable pub is_cooling : ℤ → ℕ → ℕ → Bool
is_cooling min_interval last now =
    let gap = to_micros min_interval in ltb 0 gap && ltb now (last + gap)

module _ ⦃py : Python⦄ where
  -- An exception of the enforcement is logged, and one of that logging leaves the loop.
  unfoldable pub log_error : Option Exception → Outcome Bool → Outcome Bool
  log_error fails (returns done) = returns done
  log_error none (raises x) = returns false
  log_error (some y) (raises x) = raises y

  unfoldable pub act : GuardConfig → Event → Text → Guard → Outcome Guard
  unfolding enforce_rcon_attempt set_time bare_ip log_error
  act config e source s =
      log_error e.log_fails (enforce_rcon_attempt e.env e.net config source).outcome >>= λ _.
      returns (record {
        last_action_for_ip = set_time (bare_ip source) e.now s.last_action_for_ip;
        acted = (bare_ip source, e.now) ∷ s.acted;
        sent = (enforce_rcon_attempt e.env e.net config source).commands ∷ s.sent;
      })

  unfoldable pub on_attempt :
      GuardConfig → Event → Option (Text × Option Text) → Guard → Outcome Guard
  unfolding act is_ignored_ip is_cooling time_or_zero bare_ip
  on_attempt config e none s = returns s
  on_attempt config e (some (source, attempted)) s =
      if is_ignored_ip source config.ignore_ip_hosts
      then returns s
      else if is_cooling config.min_seconds_between_actions
          (time_or_zero (bare_ip source) s.last_action_for_ip) e.now
      then returns s
      else act config e source s

  unfoldable pub on_guard_line : GuardConfig → Event → Guard → Outcome Guard
  unfolding on_attempt try_detect_rcon_attempt
  on_guard_line config e s = try_detect_rcon_attempt e.raw config.compiled_patterns >>= λ detected.
      on_attempt config e detected s

  unfoldable pub guard_loop : GuardConfig → List Event → Guard → Outcome Guard
  unfolding on_guard_line
  guard_loop config [] s = returns s
  guard_loop config (e ∷ es) s = on_guard_line config e s >>= λ s'. guard_loop config es s'

  -- The loop over the tails.
  unfoldable pub guard_follow :
      GuardConfig → List (TailTurn Event) → Follower Guard → Outcome (Follower Guard)
  unfolding follow guard_loop guard_tail_source
  guard_follow config =
      follow (λ env. guard_tail_source env config.fallback_to_server_log) (guard_loop config)

abbrev pub is_guard_enabled : GuardConfig → Bool
is_guard_enabled config = config.enabled

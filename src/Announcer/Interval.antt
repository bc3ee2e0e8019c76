-- ===== src/Announcer/Interval.antt =====
-- `run_simple_interval_loop` of bundled-addons/defaults/announcer.py, one round at a time, and the
-- choice of the loop in `run_worker`.
use jedi_academy_pterodactyl.Prelude.{
  if◌then◌else◌, is_empty, ℕ, Bool, not, Option, none, some, List, [], ◌∷◌,
}
use jedi_academy_pterodactyl.Text.{Text}
use jedi_academy_pterodactyl.Outcome.{returns, ◌>>=◌, Outcome}
use jedi_academy_pterodactyl.Announcer.Rotation.{next_message}
use jedi_academy_pterodactyl.Announcer.Config.{AnnouncerConfig}

-- What a round finds: the configuration, what `dispatch_announcement` returns, and whether the
-- shutdown event was set in the sleep.
pub record IntervalRound : Type 0 where
  pub config : Outcome AnnouncerConfig
  pub dispatch : Text → Outcome Bool
  pub shutdown : Bool

-- `cursor`, and the messages that were dispatched, the last one first.
pub record Rotation : Type 0 where
  pub cursor : ℕ
  pub dispatched : List Text

-- How the loop goes on, also after its last known round.
pub data Course : Type 0 where
  goes_on worker_exits to_schedule : Course

abbrev message_or_blank : Option Text → Text
message_or_blank none = []
message_or_blank (some m) = m

unfoldable pub dispatch_next : IntervalRound → Option Text × ℕ → Rotation → Outcome Rotation
dispatch_next r (next, cursor) s = elim (message_or_blank next) as (λ m. Outcome Rotation) [
  | [] ↦ returns (record s { cursor = cursor })
  | c ∷ cs ↦ r.dispatch (c ∷ cs) >>= λ ok.
      returns (record { cursor = cursor; dispatched = (c ∷ cs) ∷ s.dispatched })
]

-- With an empty list of messages nothing is dispatched.
unfoldable pub announce_next : IntervalRound → List Text → Rotation → Outcome Rotation
unfolding dispatch_next next_message
announce_next r [] s = returns s
announce_next r (m ∷ ms) s = dispatch_next r (next_message (m ∷ ms) s.cursor) s

unfoldable pub interval_round : IntervalRound → Rotation → Outcome (Course × Rotation)
unfolding announce_next
interval_round r s = r.config >>= λ config.
    if not config.enabled
    then returns (worker_exits, s)
    else if not (is_empty config.schedule)
    then returns (to_schedule, s)
    else announce_next r config.messages s >>= λ s'.
        returns ((if r.shutdown then worker_exits else goes_on), s')

unfoldable pub interval_loop : List IntervalRound → Rotation → Outcome (Course × Rotation)
unfolding interval_round
interval_loop [] s = returns (goes_on, s)
interval_loop (r ∷ rs) s = interval_round r s >>= λ out. elim out.0 [
  | goes_on ↦ interval_loop rs out.1
  | c ↦ returns (c, out.1)
]

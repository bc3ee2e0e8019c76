-- ===== src/Match/Loop.antt =====
-- The loop of `main` in bundled-addons/defaults/match-announcer.py over what `select` and
-- `readline` give it, and the flush of a deferred start after the end of the input.

use jedi_academy_pterodactyl.Prelude.{
  ltb, leb, length, suc, if◌then◌else◌, is_empty, ℕ, ◌+◌, ◌&&◌, Option, none, some, List, [], ◌∷◌,
}
use jedi_academy_pterodactyl.Text.{Text, strip}
use jedi_academy_pterodactyl.Outcome.{◌>>=◌, returns, Outcome, raises, type_error}
use jedi_academy_pterodactyl.Python.Json.{null, Json, Python}
use jedi_academy_pterodactyl.Match.Machine.{
  MatchAnnouncer, handle_event, tick, match_start_delay_ms, Readings, Sent, sent,
}

pub data Poll : Type 0 where
  -- a line was read, and the clock readings of the event that it holds
  line_read : Text → Readings → Poll
  -- `select` timed out, and the clock reading of `tick`
  timed_out : ℕ → Poll
  -- the end of the input, or an error of `select`
  input_closed : Poll

-- One test of the flush loop, and the reading that its `tick` makes.
pub record Flush : Type 0 where
  pub now : ℕ
  pub pumped : ℕ

-- What `_send` does with a line and its command, if there is one; it may depend on the calls before
-- it, the last one first.
abbrev pub Sender : Type 0
Sender = Text → Option Json → List Sent → Outcome {0} Unit

-- After a `TypeError` the call without the command counts.
abbrev or_alone : Outcome {0} Unit → Outcome {0} Unit → Outcome {0} Unit
or_alone alone (raises type_error) = alone
or_alone alone r = r

-- The call of `_send` in `_emit`, and its fallback for a sender of one argument.
unfoldable pub call_send : Sender → Sent → List Sent → Outcome {0} Unit
call_send send (sent line command) before =
    or_alone (send line none before) (send line (some command) before)

-- The calls that came after the first `old` ones, in their order.
unfoldable pub call_sends : Sender → ℕ → List Sent → Outcome {0} Unit
unfolding call_send
call_sends send old [] = returns tt
call_sends send old (s ∷ before) =
    let earlier = call_sends send old before in
    if leb (suc (length before)) old then returns tt else earlier >>= λ _. call_send send s before

-- What an event handed to `_send` is sent, and an exception of `_send` leaves `main`.
unfoldable pub deliver : Sender → MatchAnnouncer → MatchAnnouncer → Outcome MatchAnnouncer
unfolding call_sends
deliver send m m' = call_sends send (length m.outbox) m'.outbox >>= λ _. returns m'

module _ ⦃py : Python⦄ where
  -- `json.loads` of a line; a `JSONDecodeError` is logged, and gives no event.
  unfoldable pub parse_event : Text → Outcome (Option Json)
  parse_event raw = elim (py.json_fails raw) [
    | none ↦ returns (py.json_loads raw)
    | some e ↦ raises e
  ]

  -- An event that does not parse, and the value null, are skipped.
  unfoldable pub handle_parsed : Option Json → Readings → MatchAnnouncer → Outcome MatchAnnouncer
  handle_parsed none t m = returns m
  handle_parsed (some null) t m = returns m
  handle_parsed (some event) t m = handle_event event t m

  unfoldable pub on_line : Sender → Text → Readings → MatchAnnouncer → Outcome MatchAnnouncer
  unfolding handle_parsed parse_event deliver
  on_line send raw t m =
      if is_empty (strip raw)
      then returns m
      else (parse_event (strip raw) >>= (λ event. handle_parsed event t m) >>= deliver send m)

  unfoldable pub on_tick : Sender → ℕ → MatchAnnouncer → Outcome MatchAnnouncer
  unfolding deliver
  on_tick send now m = tick now m >>= deliver send m

  unfoldable pub poll_loop : Sender → List Poll → MatchAnnouncer → Outcome MatchAnnouncer
  poll_loop send [] m = returns m
  poll_loop send (line_read raw t ∷ polls) m =
      on_line send raw t m >>= λ m'. poll_loop send polls m'
  poll_loop send (timed_out now ∷ polls) m = on_tick send now m >>= λ m'. poll_loop send polls m'
  poll_loop send (input_closed ∷ polls) m = returns m

  unfoldable pub flush_loop : Sender → List Flush → ℕ → MatchAnnouncer → Outcome MatchAnnouncer
  flush_loop send [] deadline m = returns m
  flush_loop send (f ∷ fs) deadline m =
      if m.pending_match_start && ltb f.now deadline
      then (on_tick send f.pumped m >>= λ m'. flush_loop send fs deadline m')
      else returns m

  -- `ended` is the reading that sets the deadline of the flush.
  unfoldable pub main_loop :
      Sender → List Poll → ℕ → List Flush → MatchAnnouncer → Outcome MatchAnnouncer
  unfolding poll_loop flush_loop
  main_loop send polls ended flushes m = poll_loop send polls m >>= λ m'.
      flush_loop send flushes (ended + match_start_delay_ms + 500) m'

-- ===== src/Match/Machine.antt =====
-- The class `MatchAnnouncer` of bundled-addons/defaults/match-announcer.py. A method returns the
-- new state, or the exception that leaves it. Times are readings of the monotonic clock in
-- milliseconds; a method is given the readings that it makes.

use jedi_academy_pterodactyl.Match.Config.{
  parse_configured_gametypes, normalize_messages, mem_ℤ, ints, first_or_six,
}
use jedi_academy_pterodactyl.Prelude.{
  ltb, leb, if◌then◌else◌, take, is_empty, ℤ, pos, ℕ, ◌+◌, Bool, true, false, not, ◌&&◌, Option,
  none, some, List, [], ◌∷◌,
}
use jedi_academy_pterodactyl.Text.{Text, codes, same, strip}
use jedi_academy_pterodactyl.Outcome.{Outcome, returns, ◌>>=◌}
use jedi_academy_pterodactyl.Python.Json.{Json, bool, int, str, list, dict, Fields, end, Python}
use jedi_academy_pterodactyl.Python.Dict.{Dict, get, get_or, put, field_of, as_fields}
use jedi_academy_pterodactyl.Python.Convert.{truthy, str_or_empty}
use jedi_academy_pterodactyl.Match.Patterns.{
  vote_passed, exit_hit, parse_gametype, team_score, is_final_scoreboard_broadcast,
}
use jedi_academy_pterodactyl.Match.Render.{
  Group, start_group, end_group, command_for_group, score_values, end_message_key, render_message,
}

pub data Sent : Type 0 where
  -- `_send(line, command)`
  sent : Text → Json → Sent

pub record MatchAnnouncer : Type 0 where
  pub config : Dict
  pub gametypes : List ℤ
  pub armed : Bool
  pub armed_at : Option ℕ
  pub match_started : Bool
  pub match_ending : Bool
  pub summary_sent : Bool
  pub match_start_sent : Bool
  pub pending_match_start : Bool
  pub pending_match_start_at : Option ℕ
  pub final_red_score : Option ℕ
  pub final_blue_score : Option ℕ
  pub current_gametype : Option ℕ
  -- what was handed to the `send` callable, the last call first
  pub outbox : List Sent

abbrev pub max_svsay_line_length : ℕ
max_svsay_line_length = 140

abbrev pub map_restart_arm_ms : ℕ
map_restart_arm_ms = 30000

abbrev pub match_start_delay_ms : ℕ
match_start_delay_ms = 2000

-- What `self._clock()` returns at the three places of one event: the test of the arming, the
-- stamp that the handler stores, and the test of the deferred start.
pub record Readings : Type 0 where
  pub checked : ℕ
  pub stamped : ℕ
  pub pumped : ℕ

unfoldable pub reset_match : MatchAnnouncer → MatchAnnouncer
reset_match m = record m {
  match_started = false;
  match_ending = false;
  summary_sent = false;
  match_start_sent = false;
  pending_match_start = false;
  pending_match_start_at = none;
  final_red_score = none;
  final_blue_score = none;
  current_gametype = none;
}

unfoldable pub disarm : MatchAnnouncer → MatchAnnouncer
disarm m = record m { armed = false; armed_at = none }

-- `clock() - armed_at <= 30`, with the subtraction moved to the other side
unfoldable pub is_armed_now : MatchAnnouncer → ℕ → Bool
is_armed_now m now =
    m.armed && elim m.armed_at [ none ↦ true | some at ↦ leb now (at + map_restart_arm_ms) ]

-- The line that is sent: without white space at its ends, and cut off.
unfoldable pub emitted_line : Text → Text
emitted_line line = take max_svsay_line_length (strip line)

-- The line and its command are handed to `_send`; what that call does, and an exception that leaves
-- it, is `deliver` of Match/Loop.
unfoldable pub emit : Text → Group → MatchAnnouncer → MatchAnnouncer
emit line group m = if is_empty (strip line) then m else record m {
  outbox = sent (emitted_line line) (command_for_group m.config group) ∷ m.outbox;
}

-- The deferred start is not due yet.
abbrev pub waits : Option ℕ → ℕ → Bool
waits none now = false
waits (some at) now = ltb now at

-- `int` of one group after the other; a `ValueError` ends the two assignments.
unfoldable pub store_scores : Option ℕ × Option ℕ → MatchAnnouncer → MatchAnnouncer
store_scores (some red, some blue) m = record m {
  final_red_score = some red;
  final_blue_score = some blue;
}
store_scores (some red, none) m = record m { final_red_score = some red }
store_scores (none, blue) m = m

-- Whether an InitGame line's gametype is one of the configured ones.
abbrev pub supported : Option ℕ → List ℤ → Bool
supported none gametypes = false
supported (some g) gametypes = mem_ℤ (pos g) gametypes

-- `bool(self.config.get("require_map_restart_vote", True))`
unfoldable pub requires_vote : MatchAnnouncer → Bool
unfolding truthy get_or
requires_vote m = truthy (get_or m.config (codes "require_map_restart_vote") (bool true))

unfoldable pub activate : Option ℕ → ℕ → MatchAnnouncer → MatchAnnouncer
activate gametype now m = record (disarm (reset_match m)) {
  current_gametype = gametype;
  match_started = true;
  pending_match_start = true;
  pending_match_start_at = some (now + match_start_delay_ms);
}

-- The values of `type` that have a handler.
pub data EventType : Type 0 where
  raw_line init_game shutdown_game other_type : EventType

unfoldable pub event_type : Fields → EventType
unfolding same field_of
event_type event = elim (field_of event (codes "type")) [
  | some (str etype) ↦
      if same etype (codes "raw_line")
      then raw_line
      else if same etype (codes "init_game")
      then init_game
      else if same etype (codes "shutdown_game")
      then shutdown_game
      else other_type
  | _ ↦ other_type
]

module _ ⦃py : Python⦄ where
  unfoldable pub send_summary_and_reset : MatchAnnouncer → Outcome MatchAnnouncer
  send_summary_and_reset m =
      if m.summary_sent
      then returns m
      else (render_message m.config (end_message_key m.final_red_score m.final_blue_score)
            (score_values m.final_red_score m.final_blue_score)
          >>= λ line.
              returns (reset_match (emit line end_group (record m { summary_sent = true }))))

  unfoldable pub send_match_start : MatchAnnouncer → Outcome MatchAnnouncer
  send_match_start m =
      render_message m.config (codes "tffa_start") end >>= λ line. returns (emit line start_group m)

  unfoldable pub maybe_send_pending_match_start : ℕ → MatchAnnouncer → Outcome MatchAnnouncer
  maybe_send_pending_match_start now m =
      let cleared = record m { pending_match_start = false; pending_match_start_at = none } in
      if not m.pending_match_start
      then returns m
      else if waits m.pending_match_start_at now
      then returns m
      else if m.match_start_sent
      then returns cleared
      else send_match_start (record cleared { match_start_sent = true })

  unfoldable pub tick : ℕ → MatchAnnouncer → Outcome MatchAnnouncer
  tick now m = maybe_send_pending_match_start now m

  -- A score line stores the scores, and ends the match if no summary was sent.
  unfoldable pub on_score : Option ℕ × Option ℕ → MatchAnnouncer → Outcome MatchAnnouncer
  on_score scores m =
      let m' = store_scores scores m in
      if not m'.summary_sent then send_summary_and_reset m' else returns m'

  -- The handlers that matter once a match is running.
  unfoldable pub on_match_line : Text → MatchAnnouncer → Outcome MatchAnnouncer
  on_match_line raw m =
      if exit_hit raw then returns (record m { match_ending = true }) else elim (team_score raw) [
        | some scores ↦ on_score scores m
        | none ↦
            if not m.summary_sent && is_final_scoreboard_broadcast raw
            then send_summary_and_reset m
            else returns m
      ]

  unfoldable pub on_raw_line : Text → ℕ → MatchAnnouncer → Outcome MatchAnnouncer
  on_raw_line raw now m =
      if is_empty raw
      then returns m
      else if vote_passed raw
      then returns (record m { armed = true; armed_at = some now })
      else if not m.match_started
      then returns m
      else on_match_line raw m

  unfoldable pub on_init_game : Text → Readings → MatchAnnouncer → MatchAnnouncer
  on_init_game raw t m =
      let gametype = parse_gametype raw in
      if not (supported gametype m.gametypes)
      then disarm m
      else if requires_vote m && not (is_armed_now m t.checked)
      then disarm m
      else activate gametype t.stamped m

  unfoldable pub on_shutdown_game : MatchAnnouncer → Outcome MatchAnnouncer
  on_shutdown_game m =
      if not m.match_started
      then returns m
      else if m.summary_sent
      then returns (reset_match m)
      else if m.match_ending
      then send_summary_and_reset m
      else returns m

  -- `str(event.get("raw") or "")`
  unfoldable pub raw_of : Fields → Text
  raw_of event = elim (field_of event (codes "raw")) [ none ↦ [] | some v ↦ str_or_empty v ]

  -- The event's `type` chooses the handler; any other type is ignored.
  unfoldable pub dispatch : EventType → Fields → Readings → MatchAnnouncer → Outcome MatchAnnouncer
  dispatch raw_line event t m = on_raw_line (raw_of event) t.stamped m
  dispatch init_game event t m = returns (on_init_game (raw_of event) t m)
  dispatch shutdown_game event t m = on_shutdown_game m
  dispatch other_type event t m = returns m

  unfoldable pub handle_event : Json → Readings → MatchAnnouncer → Outcome MatchAnnouncer
  handle_event (dict event) t m =
      dispatch (event_type event) event t m >>= λ m'. maybe_send_pending_match_start t.pumped m'
  handle_event event t m = returns m

  -- `__init__`, which ends with `reset_all`
  unfoldable pub new_announcer : Dict → Outcome MatchAnnouncer
  new_announcer config = parse_configured_gametypes config >>= λ gametypes. returns (record {
    config =
        put
          (put (put config (codes "gametypes") (list (ints gametypes))) (codes "gametype")
            (int (first_or_six gametypes)))
          (codes "messages")
          (dict (as_fields (normalize_messages (get config (codes "messages")))));
    gametypes = gametypes;
    armed = false;
    armed_at = none;
    match_started = false;
    match_ending = false;
    summary_sent = false;
    match_start_sent = false;
    pending_match_start = false;
    pending_match_start_at = none;
    final_red_score = none;
    final_blue_score = none;
    current_gametype = none;
    outbox = [];
  })

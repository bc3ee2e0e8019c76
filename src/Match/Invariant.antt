-- ===== src/Match/Invariant.antt =====
-- The state of `MatchAnnouncer` of bundled-addons/defaults/match-announcer.py between two events.

use jedi_academy_pterodactyl.Match.Machine.{
  MatchAnnouncer, reset_match, disarm, emit, send_summary_and_reset, activate, on_match_line,
  send_match_start, on_init_game, maybe_send_pending_match_start, on_raw_line, Readings,
  on_shutdown_game, store_scores, dispatch, on_score, raw_of, handle_event, shutdown_game,
  init_game, other_type, event_type, EventType, raw_line,
}
use jedi_academy_pterodactyl.Prelude.{
  Bool-cases, is_empty, ℕ, ◌≡◌, refl, ◌≢◌, inl, inr, true, false, not, Option, none, arith,
  Option-cases, some,
}
use jedi_academy_pterodactyl.Text.{Text, strip}
use jedi_academy_pterodactyl.Outcome.{Holds, Holds-bind}
use jedi_academy_pterodactyl.Python.Json.{Python, dict, Fields, Json}
use jedi_academy_pterodactyl.Match.Render.{Group, end_group, render_message, start_group}
use jedi_academy_pterodactyl.Match.Patterns.{parse_gametype, exit_hit, team_score}

-- The fields of a match are at rest.
pub record IsPassive (m : MatchAnnouncer) : Type 0 where
  pub ending : m.match_ending ≡ false
  pub started_sent : m.match_start_sent ≡ false
  pub pending : m.pending_match_start ≡ false
  pub pending_at : m.pending_match_start_at ≡ none
  pub red : m.final_red_score ≡ none
  pub blue : m.final_blue_score ≡ none
  pub gametype : m.current_gametype ≡ none

pub record Inv (m : MatchAnnouncer) : Type 0 where
  pub no_summary : m.summary_sent ≡ false
  pub passive : m.match_started ≡ false → IsPassive m
  pub start_once : m.match_started ≡ true → m.match_start_sent ≡ not m.pending_match_start
  pub disarmed : m.armed ≡ false → m.armed_at ≡ none
  pub stamped : m.armed ≡ true → m.armed_at ≢ none

-- Sending a line changes the outbox alone.
emit_lem :
    (line : Text) (g : Group) (m : MatchAnnouncer)
    → emit line g m ≡ record m { outbox = (emit line g m).outbox }
unfolding emit
emit_lem line g m = elim (Bool-cases (is_empty (strip line))) [ inl e ↦ rw e | inr e ↦ rw e ]

emit-Inv : (line : Text) (g : Group) (m : MatchAnnouncer) → Inv m → Inv (emit line g m)
unfolding emit
emit-Inv line g m h = ground arith

reset_match-Inv : (m : MatchAnnouncer) → Inv m → Inv (reset_match m)
unfolding reset_match
reset_match-Inv m h = record {
  no_summary = refl;
  passive = λ _. ground arith;
  start_once = λ e. cc;
  disarmed = h.disarmed;
  stamped = h.stamped;
}

disarm-Inv : (m : MatchAnnouncer) → Inv m → Inv (disarm m)
unfolding disarm
disarm-Inv m h = record {
  no_summary = h.no_summary;
  passive = λ e. let p = h.passive e in ground arith;
  start_once = h.start_once;
  disarmed = λ _. refl;
  stamped = λ e. cc;
}

activate-Inv : (g : Option ℕ) (now : ℕ) (m : MatchAnnouncer) → Inv (activate g now m)
unfolding activate reset_match disarm
activate-Inv g now m = ground arith

module _ ⦃py : Python⦄ where
  summary_step :
      (line : Text) (m : MatchAnnouncer)
      → Inv m
      → Inv (reset_match (emit line end_group (record m { summary_sent = true })))
  unfolding reset_match
  summary_step line m h = rw emit_lem (record {
    no_summary = refl;
    passive = λ _. ground arith;
    start_once = λ e. cc;
    disarmed = h.disarmed;
    stamped = h.stamped;
  })

  send_summary_and_reset-Inv : (m : MatchAnnouncer) → Inv m → Holds Inv (send_summary_and_reset m)
  unfolding send_summary_and_reset
  send_summary_and_reset-Inv m h = rw h.no_summary (
      Holds-bind (λ _. Unit) Inv (render_message _ _ _) _ (ground arith)
        (λ line _. summary_step line m h))

  send_match_start-Inv :
      (m : MatchAnnouncer)
      → m.pending_match_start ≡ true
      → Inv m
      → Holds Inv (
          send_match_start (record m {
            pending_match_start = false;
            pending_match_start_at = none;
            match_start_sent = true;
          }))
  unfolding send_match_start
  send_match_start-Inv m p h =
      Holds-bind (λ _. Unit) Inv (render_message _ _ _) _ (ground arith)
        (λ line _. emit-Inv line start_group _ (record {
          no_summary = h.no_summary;
          passive = λ e. cc (p, (h.passive e).pending);
          start_once = λ e. refl;
          disarmed = h.disarmed;
          stamped = h.stamped;
        }))

  pub maybe_send-Inv :
      (now : ℕ) (m : MatchAnnouncer) → Inv m → Holds Inv (maybe_send_pending_match_start now m)
  unfolding maybe_send_pending_match_start
  maybe_send-Inv now m h = ground (arith, send_match_start-Inv m)

  store_scores-Inv :
      (scores : Option ℕ × Option ℕ) (m : MatchAnnouncer)
      → m.match_started ≡ true
      → Inv m
      → Inv (store_scores scores m)
  unfolding store_scores
  store_scores-Inv (some red, some blue) m s h = ground arith
  store_scores-Inv (some red, none) m s h = ground arith
  store_scores-Inv (none, blue) m s h = h

  on_score-Inv :
      (scores : Option ℕ × Option ℕ) (m : MatchAnnouncer)
      → m.match_started ≡ true
      → Inv m
      → Holds Inv (on_score scores m)
  unfolding on_score
  on_score-Inv scores m s h =
      ground
        (arith, store_scores-Inv scores m s h, send_summary_and_reset-Inv (store_scores scores m))

  on_match_line-Inv :
      (raw : Text) (m : MatchAnnouncer)
      → m.match_started ≡ true
      → Inv m
      → Holds Inv (on_match_line raw m)
  unfolding on_match_line
  on_match_line-Inv raw m s h = elim (Bool-cases (exit_hit raw)) [
    | inl e ↦ rw e (ground arith)
    | inr e ↦ rw e (elim (Option-cases (team_score raw)) [
      | inl p ↦ rw p (ground (arith, send_summary_and_reset-Inv m h))
      | inr (scores, p) ↦ rw p (on_score-Inv scores m s h)
    ])
  ]

  on_raw_line-Inv :
      (raw : Text) (now : ℕ) (m : MatchAnnouncer) → Inv m → Holds Inv (on_raw_line raw now m)
  unfolding on_raw_line
  on_raw_line-Inv raw now m h = ground (arith, on_match_line-Inv raw m)

  on_init_game-Inv :
      (raw : Text) (t : Readings) (m : MatchAnnouncer) → Inv m → Inv (on_init_game raw t m)
  unfolding on_init_game
  on_init_game-Inv raw t m h =
      ground (arith, disarm-Inv m h, activate-Inv (parse_gametype raw) t.stamped m)

  on_shutdown_game-Inv : (m : MatchAnnouncer) → Inv m → Holds Inv (on_shutdown_game m)
  unfolding on_shutdown_game
  on_shutdown_game-Inv m h = ground (arith, send_summary_and_reset-Inv m h, reset_match-Inv m h)

  dispatch-Inv :
      (e : EventType) (event : Fields) (t : Readings) (m : MatchAnnouncer)
      → Inv m
      → Holds Inv (dispatch e event t m)
  unfolding dispatch
  dispatch-Inv raw_line event t m h = on_raw_line-Inv (raw_of event) t.stamped m h
  dispatch-Inv init_game event t m h = on_init_game-Inv (raw_of event) t m h
  dispatch-Inv shutdown_game event t m h = on_shutdown_game-Inv m h
  dispatch-Inv other_type event t m h = h

  -- Every event keeps the invariant, if it raises nothing.
  pub handle_event-Inv :
      (event : Json) (t : Readings) (m : MatchAnnouncer)
      → Inv m
      → Holds Inv (handle_event event t m)
  unfolding handle_event
  handle_event-Inv (dict event) t m h =
      Holds-bind Inv Inv (dispatch (event_type event) event t m) _
        (dispatch-Inv (event_type event) event t m h) (maybe_send-Inv t.pumped)
  handle_event-Inv _ t m h = h

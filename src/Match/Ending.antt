-- ===== src/Match/Ending.antt =====
-- One match of bundled-addons/defaults/match-announcer.py: its start and its end.

use jedi_academy_pterodactyl.Prelude.{
  is_empty, ℕ, ◌≡◌, refl, ◌≢◌, true, false, some, ◌∷◌, arith, ◌+◌, ◌≤◌, ◌<◌, ◌↔◌, ap, ◌∙◌, not,
  none,
}
use jedi_academy_pterodactyl.Text.{Text, strip, codes}
use jedi_academy_pterodactyl.Outcome.{returns, of_Holds}
use jedi_academy_pterodactyl.Python.Json.{Python, dict, Fields, end}
use jedi_academy_pterodactyl.Match.Render.{
  score_values, render_message, end_group, end_message_key, command_for_group, start_group,
}
use jedi_academy_pterodactyl.Match.Patterns.{team_score, exit_hit, vote_passed, parse_gametype}
use jedi_academy_pterodactyl.Match.Invariant.{Inv, handle_event-Inv}
use jedi_academy_pterodactyl.Match.Machine.{
  dispatch, maybe_send_pending_match_start, handle_event, send_summary_and_reset, Readings,
  event_type, raw_of, EventType, emitted_line, on_raw_line, shutdown_game, raw_line, other_type,
  on_match_line, store_scores, emit, sent, on_score, MatchAnnouncer, init_game, reset_match,
  on_shutdown_game, activate, on_init_game, send_match_start, supported, requires_vote, tick,
  is_armed_now, disarm,
}

-- A raw line with both team scores that is neither a vote nor an exit line.
pub record IsScore ⦃py : Python⦄ (event : Fields) (red blue : ℕ) : Type 0 where
  pub raw_event : event_type event ≡ raw_line
  pub nonempty : is_empty (raw_of event) ≡ false
  pub no_vote : vote_passed (raw_of event) ≡ false
  pub no_exit : exit_hit (raw_of event) ≡ false
  pub scores : team_score (raw_of event) ≡ some (some red, some blue)

-- An event that reports neither a passed vote nor a new game.
pub record IsOrdinary ⦃py : Python⦄ (event : Fields) : Type 0 where
  pub no_init : event_type event ≢ init_game
  pub no_vote : vote_passed (raw_of event) ≡ false

module _ ⦃py : Python⦄ where
  dispatch_passive :
      (e : EventType) (event : Fields) (t : Readings) (m : MatchAnnouncer)
      → m.match_started ≡ false
      → e ≢ init_game
      → vote_passed (raw_of event) ≡ false
      → dispatch e event t m ≡ returns m
  unfolding dispatch on_raw_line on_shutdown_game
  dispatch_passive raw_line event t m s n v = ground arith
  dispatch_passive init_game event t m s n v = absurd (n refl)
  dispatch_passive shutdown_game event t m s n v = ground arith
  dispatch_passive other_type event t m s n v = refl

  maybe_send_idle :
      (now : ℕ) (m : MatchAnnouncer)
      → m.pending_match_start ≡ false
      → maybe_send_pending_match_start now m ≡ returns m
  unfolding maybe_send_pending_match_start
  maybe_send_idle now m p = ground arith

  -- While no match is running, every event but a passed vote and an `init_game` changes nothing
  -- and sends nothing.
  pub passive_ignores :
      (event : Fields) (t : Readings) (m : MatchAnnouncer)
      → Inv m
      → m.match_started ≡ false
      → IsOrdinary event
      → handle_event (dict event) t m ≡ returns m
  unfolding handle_event
  passive_ignores event t m h s o =
      rw (dispatch_passive (event_type event) event t m s o.no_init o.no_vote)
        (maybe_send_idle t.pumped m (h.passive s).pending)

  -- The machine after the summary.
  abbrev ended : Text → ℕ → ℕ → MatchAnnouncer → MatchAnnouncer
  ended text red blue m = reset_match (
      emit text end_group (record m {
        final_red_score = some red;
        final_blue_score = some blue;
        summary_sent = true;
      }))

  dispatch_score :
      (event : Fields) (red blue : ℕ) (text : Text) (t : Readings) (m : MatchAnnouncer)
      → m.summary_sent ≡ false
      → m.match_started ≡ true
      → IsScore event red blue
      → render_message m.config
          (end_message_key (some red) (some blue))
          (score_values (some red) (some blue))
        ≡ returns text
      → dispatch raw_line event t m ≡ returns (ended text red blue m)
  unfolding dispatch on_raw_line on_match_line on_score store_scores send_summary_and_reset
  dispatch_score event red blue text t m n s h r =
      simp (h.nonempty, h.no_vote, s, h.no_exit, h.scores, n, r)

  handle_score :
      (event : Fields) (red blue : ℕ) (text : Text) (t : Readings) (m : MatchAnnouncer)
      → Inv m
      → m.match_started ≡ true
      → IsScore event red blue
      → render_message m.config
          (end_message_key (some red) (some blue))
          (score_values (some red) (some blue))
        ≡ returns text
      → handle_event (dict event) t m ≡ returns (ended text red blue m)
  unfolding handle_event
  handle_score event red blue text t m h s p r = rw p.raw_event (
      rw (dispatch_score event red blue text t m h.no_summary s p r)
        (maybe_send_idle t.pumped (ended text red blue m) (unfold reset_match in refl)))

  ended_fields :
      (text : Text) (red blue : ℕ) (m : MatchAnnouncer)
      → is_empty (strip text) ≡ false
      → ((ended text red blue m).outbox
          ≡ sent (emitted_line text) (command_for_group m.config end_group) ∷ m.outbox)
        × ((ended text red blue m).match_started ≡ false)
        × ((ended text red blue m).armed ≡ m.armed)
  unfolding emit reset_match
  ended_fields text red blue m n = (rw n, refl, rw n)

  -- A running match whose summary renders to a text that is not blank ends at the first team-score
  -- line: the event sends exactly that one line, with the end command; the match is over and the
  -- arming is as it was; and a second score line changes nothing and sends nothing.
  pub score_line_ends_once :
      (first second : Fields) (red blue red' blue' : ℕ) (text : Text) (t t' : Readings)
      (m : MatchAnnouncer)
      → Inv m
      → m.match_started ≡ true
      → IsScore first red blue
      → IsScore second red' blue'
      → render_message m.config
          (end_message_key (some red) (some blue))
          (score_values (some red) (some blue))
        ≡ returns text
      → is_empty (strip text) ≡ false
      → (m' : MatchAnnouncer) × (handle_event (dict first) t m ≡ returns m')
        × (m'.outbox ≡ sent (emitted_line text) (command_for_group m.config end_group) ∷ m.outbox)
        × (m'.match_started ≡ false)
        × (m'.armed ≡ m.armed)
        × (handle_event (dict second) t' m' ≡ returns m')
  score_line_ends_once first second red blue red' blue' text t t' m h s p q r n =
      let m' = ended text red blue m in
      let e = handle_score first red blue text t m h s p r in
      let (sent_line, over, arming) = ended_fields text red blue m n in
      (
        m',
        e,
        sent_line,
        over,
        arming,
        passive_ignores second t' m' (of_Holds Inv (handle_event-Inv (dict first) t m h) e) over
            (record { no_init = λ x. cc (q.raw_event, x); no_vote = q.no_vote }),
      )

  -- For an announcer that requires the vote, in which no match is running and a passed vote at the
  -- time `voted` is armed: an InitGame line of a supported gametype starts a match exactly if it is
  -- read at most 30 seconds after the vote; if it starts one, the start is due 2 seconds after its
  -- stamp. In both cases the vote is used up and nothing is sent yet.
  pub vote_window :
      (raw : Text) (t : Readings) (voted : ℕ) (m : MatchAnnouncer)
      → requires_vote m ≡ true
      → m.armed ≡ true
      → m.armed_at ≡ some voted
      → m.match_started ≡ false
      → supported (parse_gametype raw) m.gametypes ≡ true
      → let m' = on_init_game raw t m in
        ((m'.match_started ≡ true) ↔ (t.checked ≤ voted + 30000))
        × (m'.match_started ≡ true
            → (m'.pending_match_start ≡ true)
              × (m'.pending_match_start_at ≡ some (t.stamped + 2000)))
        × (m'.armed ≡ false)
        × (m'.outbox ≡ m.outbox)
  unfolding on_init_game is_armed_now activate disarm reset_match
  vote_window raw t voted m v a w s g = ground arith

  start_waits :
      (due now : ℕ) (m : MatchAnnouncer)
      → m.pending_match_start ≡ true
      → m.pending_match_start_at ≡ some due
      → now < due
      → maybe_send_pending_match_start now m ≡ returns m
  unfolding maybe_send_pending_match_start
  start_waits due now m p d early = ground arith

  -- The machine after the start line.
  abbrev announced : Text → MatchAnnouncer → MatchAnnouncer
  announced text m = emit text start_group (record m {
    pending_match_start = false;
    pending_match_start_at = none;
    match_start_sent = true;
  })

  start_sends :
      (due now : ℕ) (text : Text) (m : MatchAnnouncer)
      → m.pending_match_start ≡ true
      → m.pending_match_start_at ≡ some due
      → m.match_start_sent ≡ false
      → due ≤ now
      → render_message m.config (codes "tffa_start") end ≡ returns text
      → maybe_send_pending_match_start now m ≡ returns (announced text m)
  unfolding maybe_send_pending_match_start send_match_start
  start_sends due now text m p d u late r = ground arith

  announced_fields :
      (text : Text) (m : MatchAnnouncer)
      → is_empty (strip text) ≡ false
      → ((announced text m).outbox
          ≡ sent (emitted_line text) (command_for_group m.config start_group) ∷ m.outbox)
        × ((announced text m).pending_match_start ≡ false)
  unfolding emit
  announced_fields text m n = (rw n, rw n)

  -- A deferred start that is due at `due` is sent by the first tick at or after that time, once,
  -- with the start command, and not before; here the message is not blank.
  pub start_sent_once :
      (due now later : ℕ) (text : Text) (m : MatchAnnouncer)
      → Inv m
      → m.match_started ≡ true
      → m.pending_match_start ≡ true
      → m.pending_match_start_at ≡ some due
      → render_message m.config (codes "tffa_start") end ≡ returns text
      → is_empty (strip text) ≡ false
      → (now < due → tick now m ≡ returns m)
        × (due ≤ now
            → (m' : MatchAnnouncer) × (tick now m ≡ returns m')
              × (m'.outbox
                  ≡ sent (emitted_line text) (command_for_group m.config start_group) ∷ m.outbox)
              × (tick later m' ≡ returns m'))
  unfolding tick
  start_sent_once due now later text m h s p d r n = (
    λ early. start_waits due now m p d early,
    λ due_now. (
      announced text m,
      start_sends due now text m p d unsent due_now r,
      (announced_fields text m n).0,
      maybe_send_idle later (announced text m) (announced_fields text m n).1,
    ),
  )
    where
      unsent : m.match_start_sent ≡ false
      unsent = h.start_once s ∙ ap not p

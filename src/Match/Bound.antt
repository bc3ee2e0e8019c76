-- ===== src/Match/Bound.antt =====
-- How many lines `MatchAnnouncer` of bundled-addons/defaults/match-announcer.py sends.

use jedi_academy_pterodactyl.Prelude.{
  Bool-cases, Option-cases, length, is_empty, ℕ, ◌+◌, ◌*◌, ◌≤◌, ◌≡◌, ◌∙◌, inl, inr, Bool, true,
  false, not, ◌&&◌, Option, none, some, arith, refl,
}
use jedi_academy_pterodactyl.Text.{Text}
use jedi_academy_pterodactyl.Outcome.{Holds-bind, Holds, raises, returns, Outcome}
use jedi_academy_pterodactyl.Python.Json.{dict, Python, Json, Fields}
use jedi_academy_pterodactyl.Match.Render.{render_message, end_group, start_group, Group}
use jedi_academy_pterodactyl.Match.Patterns.{vote_passed, exit_hit, team_score}
use jedi_academy_pterodactyl.Match.Machine.{
  init_game, raw_line, handle_event, reset_match, EventType, Readings, event_type, send_match_start,
  disarm, dispatch, on_raw_line, requires_vote, on_shutdown_game, other_type, MatchAnnouncer,
  maybe_send_pending_match_start, send_summary_and_reset, on_init_game, on_match_line, on_score,
  store_scores, emit, activate, shutdown_game, raw_of, is_armed_now, new_announcer,
}
use jedi_academy_pterodactyl.Python.Dict.{Dict}
use jedi_academy_pterodactyl.Match.Config.{parse_configured_gametypes}

abbrev one_if : Bool → ℕ
one_if true = 1
one_if false = 0

-- The lines that were sent, and those that the present state may still send.
pub weight : MatchAnnouncer → ℕ
weight m =
    length m.outbox + 2 * one_if m.armed + one_if m.match_started + one_if m.pending_match_start

-- From `m` to `m'` at most `n` more, under the same configuration.
abbrev pub Paid : MatchAnnouncer → ℕ → MatchAnnouncer → Type 0
Paid m n m' = (weight m' ≤ weight m + n) × (m'.config ≡ m.config)

emit-weight :
    (line : Text) (g : Group) (m : MatchAnnouncer)
    → (weight (emit line g m) ≤ weight m + 1) × ((emit line g m).config ≡ m.config)
unfolding weight emit
emit-weight line g m = ground arith

store_scores-Paid :
    (scores : Option ℕ × Option ℕ) (m : MatchAnnouncer)
    → Paid m 0 (store_scores scores m) × ((store_scores scores m).match_started ≡ m.match_started)
unfolding store_scores weight
store_scores-Paid (some red, some blue) m = ground arith
store_scores-Paid (some red, none) m = ground arith
store_scores-Paid (none, blue) m = ground arith

Paid-trans : (a b c : MatchAnnouncer) (n : ℕ) → Paid a n b → Paid b 0 c → Paid a n c
Paid-trans a b c n h k = (omega arith, k.1 ∙ h.1)

module _ ⦃py : Python⦄ where
  summary-Paid :
      (line : Text) (m : MatchAnnouncer)
      → m.match_started ≡ true
      → Paid m 0 (reset_match (emit line end_group (record m { summary_sent = true })))
  unfolding weight emit reset_match
  summary-Paid line m s = ground arith

  send_summary-Paid :
      (m : MatchAnnouncer) → m.match_started ≡ true → Holds (Paid m 0) (send_summary_and_reset m)
  unfolding send_summary_and_reset
  send_summary-Paid m s = elim (Bool-cases m.summary_sent) [
    | inl e ↦ simp e (ground arith)
    | inr e ↦ simp e (
        Holds-bind (λ _. Unit) (Paid m 0) (render_message _ _ _) _ (ground arith)
          (λ line _. summary-Paid line m s))
  ]

  send_match_start-Paid :
      (m : MatchAnnouncer)
      → m.pending_match_start ≡ true
      → Holds (Paid m 0) (
          send_match_start (record m {
            pending_match_start = false;
            pending_match_start_at = none;
            match_start_sent = true;
          }))
  unfolding send_match_start weight
  send_match_start-Paid m p =
      Holds-bind (λ _. Unit) (Paid m 0) (render_message _ _ _) _ (ground arith)
        (λ line _. ground (
          arith,
          emit-weight line start_group (record m {
            pending_match_start = false;
            pending_match_start_at = none;
            match_start_sent = true;
          }),
        ))

  pub maybe_send-Paid :
      (now : ℕ) (m : MatchAnnouncer) → Holds (Paid m 0) (maybe_send_pending_match_start now m)
  unfolding maybe_send_pending_match_start weight
  maybe_send-Paid now m = ground (arith, send_match_start-Paid m)

  on_score-Paid :
      (scores : Option ℕ × Option ℕ) (m : MatchAnnouncer)
      → m.match_started ≡ true
      → Holds (Paid m 0) (on_score scores m)
  unfolding on_score
  on_score-Paid scores m s =
      ground (arith, store_scores-Paid scores m, send_summary-Paid (store_scores scores m))

  on_match_line-Paid :
      (raw : Text) (m : MatchAnnouncer)
      → m.match_started ≡ true
      → Holds (Paid m 0) (on_match_line raw m)
  unfolding on_match_line
  on_match_line-Paid raw m s = elim (Bool-cases (exit_hit raw)) [
    | inl e ↦ rw e (unfold weight in ground arith)
    | inr e ↦ rw e (elim (Option-cases (team_score raw)) [
      | inl p ↦ rw p (ground (arith, send_summary-Paid m s))
      | inr (scores, p) ↦ rw p (on_score-Paid scores m s)
    ])
  ]

  on_init_game-Paid :
      (raw : Text) (t : Readings) (m : MatchAnnouncer)
      → requires_vote m ≡ true
      → Paid m 0 (on_init_game raw t m)
  unfolding on_init_game disarm activate reset_match is_armed_now weight
  on_init_game-Paid raw t m v = ground arith

  on_shutdown_game-Paid : (m : MatchAnnouncer) → Holds (Paid m 0) (on_shutdown_game m)
  unfolding on_shutdown_game reset_match weight
  on_shutdown_game-Paid m = ground (arith, send_summary-Paid m)

  -- A raw line that reports a passed vote.
  is_vote_in : EventType → Fields → Bool
  is_vote_in raw_line event = not (is_empty (raw_of event)) && vote_passed (raw_of event)
  is_vote_in _ event = false

  unfoldable pub is_vote : Json → Bool
  unfolding is_vote_in
  is_vote (dict event) = is_vote_in (event_type event) event
  is_vote event = false

  -- What a passed vote adds.
  abbrev pub pays : Bool → ℕ
  pays true = 2
  pays false = 0

  on_raw_line-Paid :
      (raw : Text) (now : ℕ) (m : MatchAnnouncer)
      → Holds (Paid m (pays (not (is_empty raw) && vote_passed raw))) (on_raw_line raw now m)
  unfolding on_raw_line weight
  on_raw_line-Paid raw now m = ground (arith, on_match_line-Paid raw m)

  dispatch-Paid :
      (e : EventType) (event : Fields) (t : Readings) (m : MatchAnnouncer)
      → requires_vote m ≡ true
      → Holds (Paid m (pays (is_vote_in e event))) (dispatch e event t m)
  unfolding dispatch is_vote_in
  dispatch-Paid raw_line event t m v = on_raw_line-Paid (raw_of event) t.stamped m
  dispatch-Paid init_game event t m v = on_init_game-Paid (raw_of event) t m v
  dispatch-Paid shutdown_game event t m v = on_shutdown_game-Paid m
  dispatch-Paid other_type event t m v = ground arith

  Holds-weaken :
      (a b : MatchAnnouncer) (n : ℕ) (r : Outcome MatchAnnouncer)
      → Paid a n b
      → Holds (Paid b 0) r
      → Holds (Paid a n) r
  Holds-weaken a b n (returns c) h k = Paid-trans a b c n h k
  Holds-weaken a b n (raises e) h k = tt

  pub handle_event-Paid :
      (event : Json) (t : Readings) (m : MatchAnnouncer)
      → requires_vote m ≡ true
      → Holds (Paid m (pays (is_vote event))) (handle_event event t m)
  unfolding handle_event is_vote
  handle_event-Paid (dict event) t m v =
      Holds-bind (Paid m (pays (is_vote_in (event_type event) event)))
        (Paid m (pays (is_vote_in (event_type event) event)))
        (dispatch (event_type event) event t m) _ (dispatch-Paid (event_type event) event t m v)
        (λ m' h. Holds-weaken m m' _ _ h (maybe_send-Paid t.pumped m'))
  handle_event-Paid _ t m v = ground arith

  pub new_announcer-weight : (config : Dict) → Holds (λ m. weight m ≡ 0) (new_announcer config)
  unfolding new_announcer weight
  new_announcer-weight config =
      Holds-bind (λ _. Unit) (λ m. weight m ≡ 0) (parse_configured_gametypes config) _
        (ground arith) (λ gametypes _. refl)

pub length-outbox-le : (m : MatchAnnouncer) → length m.outbox ≤ weight m
unfolding weight
length-outbox-le m = omega arith

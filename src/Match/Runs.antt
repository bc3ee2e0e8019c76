-- ===== src/Match/Runs.antt =====
-- The loop of bundled-addons/defaults/match-announcer.py: its states, and its votes and lines.

use jedi_academy_pterodactyl.Prelude.{
  if◌then◌else◌, is_empty, ℕ, ◌+◌, ◌*◌, ◌≡◌, Bool, true, false, Option, none, some, List, [], ◌∷◌,
  arith, ltb, Bool-cases, refl, ◌∙◌, inl, inr, ◌&&◌, length, ◌≤◌,
}
use jedi_academy_pterodactyl.Text.{Text, strip}
use jedi_academy_pterodactyl.Outcome.{Holds, returns, raises, Outcome, Holds-bind, of_Holds}
use jedi_academy_pterodactyl.Python.Json.{Json, Python, null}
use jedi_academy_pterodactyl.Match.Loop.{
  on_line, on_tick, Sender, Poll, timed_out, Flush, line_read, input_closed, main_loop, flush_loop,
  handle_parsed, poll_loop,
}
use jedi_academy_pterodactyl.Match.Invariant.{Inv, handle_event-Inv, maybe_send-Inv}
use jedi_academy_pterodactyl.Match.Bound.{
  Paid, is_vote, maybe_send-Paid, handle_event-Paid, pays, new_announcer-weight, length-outbox-le,
}
use jedi_academy_pterodactyl.Match.Delivered.{on_line-Holds, on_tick-Holds}
use jedi_academy_pterodactyl.Match.Machine.{Readings, requires_vote, MatchAnnouncer, new_announcer}
use jedi_academy_pterodactyl.Python.Dict.{Dict}
use jedi_academy_pterodactyl.Match.Config.{parse_configured_gametypes}

requires_vote-config :
    ⦃py : Python⦄ (a b : MatchAnnouncer) → b.config ≡ a.config → requires_vote b ≡ requires_vote a
unfolding requires_vote
requires_vote-config a b h = rw h

module _ ⦃py : Python⦄ where
  -- A line that holds the event of a passed vote.
  vote_in : Option Json → Bool
  vote_in none = false
  vote_in (some event) = is_vote event

  votes_in_line : Text → ℕ
  unfolding vote_in
  votes_in_line raw =
      if is_empty (strip raw) then 0 else if vote_in (py.json_loads (strip raw)) then 1 else 0

  -- How many of the polls are lines with a passed vote.
  pub votes : List Poll → ℕ
  unfolding votes_in_line
  votes [] = 0
  votes (line_read raw t ∷ polls) = votes_in_line raw + votes polls
  votes (timed_out now ∷ polls) = votes polls
  votes (input_closed ∷ polls) = votes polls

module _ ⦃py : Python⦄ (send : Sender) where
  handle_parsed-Inv :
      (event : Option Json) (t : Readings) (m : MatchAnnouncer)
      → Inv m
      → Holds Inv (handle_parsed event t m)
  unfolding handle_parsed
  handle_parsed-Inv none t m h = h
  handle_parsed-Inv (some null) t m h = h
  handle_parsed-Inv (some event) t m h = handle_event-Inv event t m h

  handle_parsed-Paid :
      (event : Option Json) (t : Readings) (m : MatchAnnouncer)
      → requires_vote m ≡ true
      → Holds (Paid m (pays (vote_in event))) (handle_parsed event t m)
  unfolding handle_parsed vote_in
  handle_parsed-Paid none t m v = ground arith
  handle_parsed-Paid (some null) t m v = ground arith
  handle_parsed-Paid (some event) t m v = handle_event-Paid event t m v

  on_line-Inv :
      (raw : Text) (t : Readings) (m : MatchAnnouncer) → Inv m → Holds Inv (on_line send raw t m)
  on_line-Inv raw t m h =
      on_line-Holds send Inv raw t m (λ _. h)
        (λ _. handle_parsed-Inv (py.json_loads (strip raw)) t m h)

  pays-eq : (b : Bool) → pays b ≡ 2 * (if b then 1 else 0)
  pays-eq true = refl
  pays-eq false = refl

  on_line-Paid :
      (raw : Text) (t : Readings) (m : MatchAnnouncer)
      → requires_vote m ≡ true
      → Holds (Paid m (2 * votes_in_line raw)) (on_line send raw t m)
  unfolding votes_in_line
  on_line-Paid raw t m v =
      on_line-Holds send (Paid m (2 * votes_in_line raw)) raw t m (λ e. rw e (ground arith))
        (λ e.
          rw (e, ← pays-eq (vote_in (py.json_loads (strip raw))))
            (handle_parsed-Paid (py.json_loads (strip raw)) t m v))

  poll_loop-Inv :
      (polls : List Poll) (m : MatchAnnouncer) → Inv m → Holds Inv (poll_loop send polls m)
  unfolding poll_loop
  poll_loop-Inv [] m h = h
  poll_loop-Inv (line_read raw t ∷ polls) m h =
      Holds-bind Inv Inv (on_line send raw t m) _ (on_line-Inv raw t m h) (poll_loop-Inv polls)
  poll_loop-Inv (timed_out now ∷ polls) m h =
      Holds-bind Inv Inv (on_tick send now m) _
        (on_tick-Holds send Inv now m (maybe_send-Inv now m h)) (poll_loop-Inv polls)
  poll_loop-Inv (input_closed ∷ polls) m h = h

  flush_loop-Inv :
      (fs : List Flush) (deadline : ℕ) (m : MatchAnnouncer)
      → Inv m
      → Holds Inv (flush_loop send fs deadline m)
  unfolding flush_loop
  flush_loop-Inv [] deadline m h = h
  flush_loop-Inv (f ∷ fs) deadline m h =
      elim (Bool-cases (m.pending_match_start && ltb f.now deadline)) [
        | inl e ↦ simp e (
            Holds-bind Inv Inv (on_tick send f.pumped m) _
              (on_tick-Holds send Inv f.pumped m (maybe_send-Inv f.pumped m h))
              (flush_loop-Inv fs deadline))
        | inr e ↦ simp e h
      ]

  main_loop-Inv_from :
      (polls : List Poll) (ended : ℕ) (flushes : List Flush) (m : MatchAnnouncer)
      → Inv m
      → Holds Inv (main_loop send polls ended flushes m)
  unfolding main_loop
  main_loop-Inv_from polls ended flushes m h =
      Holds-bind Inv Inv (poll_loop send polls m) _ (poll_loop-Inv polls m h)
        (flush_loop-Inv flushes _)

  more-Paid :
      (a b : MatchAnnouncer) (n k l : ℕ) (r : Outcome MatchAnnouncer)
      → n + k ≡ l
      → Paid a n b
      → Holds (Paid b k) r
      → Holds (Paid a l) r
  more-Paid a b n k l (returns c) e h p = (omega arith, p.1 ∙ h.1)
  more-Paid a b n k l (raises x) e h p = tt

  poll_loop-Paid :
      (polls : List Poll) (m : MatchAnnouncer)
      → requires_vote m ≡ true
      → Holds (Paid m (2 * votes polls)) (poll_loop send polls m)
  unfolding poll_loop votes
  poll_loop-Paid [] m v = ground arith
  poll_loop-Paid (line_read raw t ∷ polls) m v =
      Holds-bind (Paid m (2 * votes_in_line raw)) _ (on_line send raw t m) _
        (on_line-Paid raw t m v)
        λ m' h.
          more-Paid m m' _ (2 * votes polls) _ (poll_loop send polls m') (omega arith) h
            (poll_loop-Paid polls m' (requires_vote-config m m' h.1 ∙ v))
  poll_loop-Paid (timed_out now ∷ polls) m v =
      Holds-bind (Paid m 0) _ (on_tick send now m) _
        (on_tick-Holds send (Paid m 0) now m (maybe_send-Paid now m))
        λ m' h.
          more-Paid m m' 0 (2 * votes polls) _ (poll_loop send polls m') (omega arith) h
            (poll_loop-Paid polls m' (requires_vote-config m m' h.1 ∙ v))
  poll_loop-Paid (input_closed ∷ polls) m v = ground arith

  flush_loop-Paid :
      (fs : List Flush) (deadline : ℕ) (m : MatchAnnouncer)
      → Holds (Paid m 0) (flush_loop send fs deadline m)
  unfolding flush_loop
  flush_loop-Paid [] deadline m = ground arith
  flush_loop-Paid (f ∷ fs) deadline m =
      elim (Bool-cases (m.pending_match_start && ltb f.now deadline)) [
        | inl e ↦ simp e (
            Holds-bind (Paid m 0) _ (on_tick send f.pumped m) _
              (on_tick-Holds send (Paid m 0) f.pumped m (maybe_send-Paid f.pumped m))
              (λ m' h.
                more-Paid m m' 0 0 0 (flush_loop send fs deadline m') refl h
                  (flush_loop-Paid fs deadline m')))
        | inr e ↦ simp e (ground arith)
      ]

  main_loop-Paid :
      (polls : List Poll) (ended : ℕ) (flushes : List Flush) (m : MatchAnnouncer)
      → requires_vote m ≡ true
      → Holds (Paid m (2 * votes polls)) (main_loop send polls ended flushes m)
  unfolding main_loop
  main_loop-Paid polls ended flushes m v =
      Holds-bind (Paid m (2 * votes polls)) _ (poll_loop send polls m) _ (poll_loop-Paid polls m v)
        (λ m' h. more-Paid m m' _ 0 _ _ (omega arith) h (flush_loop-Paid flushes _ m'))

  new_announcer-Inv : (config : Dict) → Holds Inv (new_announcer config)
  unfolding new_announcer
  new_announcer-Inv config =
      Holds-bind (λ _. Unit) Inv (parse_configured_gametypes config) _ (ground arith)
        (λ gametypes _. ground arith)

  -- The state that a run of `main` from a new announcer reaches, wherever its input stops: no
  -- summary counts as sent; if no match is running, then no match is ending, no start is sent or
  -- pending, and there are no scores and no gametype; in a running match the start is either pending
  -- or sent, not both; and there is a time of the vote exactly if the announcer is armed.
  pub main_loop-Inv :
      (config : Dict) (polls : List Poll) (ended : ℕ) (flushes : List Flush) {m m' : MatchAnnouncer}
      → new_announcer config ≡ returns m
      → main_loop send polls ended flushes m ≡ returns m'
      → Inv m'
  main_loop-Inv config polls ended flushes {m} made ran =
      of_Holds Inv
        (main_loop-Inv_from polls ended flushes m (of_Holds Inv (new_announcer-Inv config) made))
        ran

  -- A run of `main` from a new announcer whose configuration requires the vote: whatever the input
  -- and the clock, the lines sent are at most twice as many as the lines read that report a passed
  -- `map_restart` vote.
  pub sent_le_votes :
      (config : Dict) (polls : List Poll) (ended : ℕ) (flushes : List Flush) (m m' : MatchAnnouncer)
      → new_announcer config ≡ returns m
      → requires_vote m ≡ true
      → main_loop send polls ended flushes m ≡ returns m'
      → length m'.outbox ≤ 2 * votes polls
  sent_le_votes config polls ended flushes m m' made v ran = omega (
    arith,
    length-outbox-le m',
    of_Holds _ (new_announcer-weight config) made,
    (of_Holds _ (main_loop-Paid polls ended flushes m v) ran).0,
  )

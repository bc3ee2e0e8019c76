-- ===== src/Match/Delivered.antt =====
-- The sends of one event in the loop of bundled-addons/defaults/match-announcer.py.
use jedi_academy_pterodactyl.Prelude.{
  is_empty, ℕ, ◌≡◌, true, false, Option, none, some, Bool-cases, refl, inl, inr, length,
}
use jedi_academy_pterodactyl.Text.{Text, strip}
use jedi_academy_pterodactyl.Outcome.{
  Holds, returns, raises, Holds-bind, anything, Exception, ◌>>=◌,
}
use jedi_academy_pterodactyl.Python.Json.{Python}
use jedi_academy_pterodactyl.Match.Loop.{
  on_line, on_tick, deliver, call_sends, parse_event, Sender, handle_parsed,
}
use jedi_academy_pterodactyl.Match.Machine.{
  Readings, MatchAnnouncer, tick, maybe_send_pending_match_start,
}

module _ ⦃py : Python⦄ (send : Sender) where
  -- A delivery leaves the state as it is.
  deliver-Holds :
      (P : MatchAnnouncer → Type 0) (m m' : MatchAnnouncer) → P m' → Holds P (deliver send m m')
  unfolding deliver
  deliver-Holds P m m' h =
      Holds-bind (λ _. Unit) P (call_sends send (length m.outbox) m'.outbox) _ (anything _)
        (λ _ _. h)

  parse_event-loads : (raw : Text) → Holds (λ event. event ≡ py.json_loads raw) (parse_event raw)
  unfolding parse_event
  parse_event-loads raw = branch (py.json_fails raw)
    where
      branch :
          (o : Option Exception)
          → Holds
              (λ event. event ≡ py.json_loads raw)
              (elim o [ none ↦ returns (py.json_loads raw) | some e ↦ raises e ])
      branch none = refl
      branch (some e) = tt

  -- A line whose event keeps a property.
  pub on_line-Holds :
      (P : MatchAnnouncer → Type 0) (raw : Text) (t : Readings) (m : MatchAnnouncer)
      → (is_empty (strip raw) ≡ true → P m)
      → (is_empty (strip raw) ≡ false → Holds P (handle_parsed (py.json_loads (strip raw)) t m))
      → Holds P (on_line send raw t m)
  unfolding on_line
  on_line-Holds P raw t m h k = elim (Bool-cases (is_empty (strip raw))) [
    | inl e ↦ rw e (h e)
    | inr e ↦ rw e (
        Holds-bind P P (parse_event (strip raw) >>= λ event. handle_parsed event t m) _
          (Holds-bind (λ event. event ≡ py.json_loads (strip raw)) P (parse_event (strip raw)) _
            (parse_event-loads (strip raw)) (λ event same_event. rw same_event (k e)))
          (λ m'. deliver-Holds P m m'))
  ]

  pub on_tick-Holds :
      (P : MatchAnnouncer → Type 0) (now : ℕ) (m : MatchAnnouncer)
      → Holds P (maybe_send_pending_match_start now m)
      → Holds P (on_tick send now m)
  unfolding on_tick tick
  on_tick-Holds P now m h =
      Holds-bind P P (maybe_send_pending_match_start now m) _ h (λ m'. deliver-Holds P m m')

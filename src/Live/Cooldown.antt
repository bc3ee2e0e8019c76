-- ===== src/Live/Cooldown.antt =====
-- The cooldown of bundled-addons/defaults/live-team-announcer.py.

use std.Path.{subst}
use jedi_academy_pterodactyl.Prelude.{
  if◌then◌else◌, ℤ, ℕ, ◌+◌, ◌≤◌, ◌≡◌, false, Option, none, some, List, [], ◌∷◌, refl, ap, true,
  arith, ◌∙◌, Bool, is_empty, ◌||◌, ◌++◌,
}
use jedi_academy_pterodactyl.Text.{Text, same, codes, strip}
use jedi_academy_pterodactyl.Live.Announce.{
  set_last, cooling, Announcement, last_of, Live, to_micros, LastAnnounced, announce, send_live,
  Input, on_input, live_loop, is_text, on_event, announce_if, on_change, announcement_for,
  text_field,
}
use jedi_academy_pterodactyl.Text.Equality.{same_iff, same_refl}
use jedi_academy_pterodactyl.Outcome.{Holds-bind, Holds, of_Holds, returns, Holds-if}
use jedi_academy_pterodactyl.Live.Config.{LiveConfig}
use jedi_academy_pterodactyl.Python.Json.{Python, Json, dict}
use jedi_academy_pterodactyl.Python.Dict.{field_of}

-- The last announcement of a key.
pub latest : Text → List Announcement → Option (Text × ℕ)
unfolding same
latest k [] = none
latest k (a ∷ l) = if same a.key k then some (a.team, a.at) else latest k l

-- An announcement that repeats the last one of its key keeps the distance `gap` from it.
abbrev IsSpaced : ℕ → Announcement → List Announcement → Type 0
IsSpaced gap a l = (at : ℕ) → latest a.key l ≡ some (a.team, at) → at + gap ≤ a.at

pub Spaced : ℕ → List Announcement → Type 0
Spaced gap [] = Unit
Spaced gap (a ∷ l) = IsSpaced gap a l × Spaced gap l

-- The memory is the view of the announcements that the cooldown needs.
abbrev Remembers : Live → Type 0
Remembers s = (k : Text) → last_of k s.last_announced ≡ latest k s.announced

abbrev pub Cooled : ℕ → Live → Type 0
Cooled gap s = Remembers s × Spaced gap s.announced

same-trade : (h k j : Text) → same h k ≡ true → same h j ≡ same k j
same-trade h k j e = ap (λ t. same t j) ((same_iff h k).0 e)

same-apart : (h k j : Text) → same h k ≡ false → same h j ≡ true → same k j ≡ false
same-apart h k j e f = ground (arith, same-trade h j k f, same-trade k j k, same_refl k)

last_of-set_last :
    (k j : Text) (v : Text × ℕ) (d : LastAnnounced)
    → last_of j (set_last k v d) ≡ (if same k j then some v else last_of j d)
unfolding last_of set_last
last_of-set_last k j v [] = refl
last_of-set_last k j v ((h, w) ∷ d) =
    ground (arith, last_of-set_last k j v d, same-trade h k j, same-apart h k j)

cooling_off :
    (cooldown : ℤ) (team : Text) (now at : ℕ) (o : Option (Text × ℕ))
    → cooling cooldown team now o ≡ false
    → o ≡ some (team, at)
    → at + to_micros cooldown ≤ now
unfolding cooling
cooling_off cooldown team now at o h e =
    within (subst (λ o. cooling cooldown team now o ≡ false) e h)
  where
    within : cooling cooldown team now (some (team, at)) ≡ false → at + to_micros cooldown ≤ now
    within f = ground (arith, same_refl team)

module _ ⦃py : Python⦄ where
  announce-Cooled :
      (i : Input) (config : LiveConfig) (key team message : Text) (s : Live)
      → Cooled (to_micros config.min_seconds_between_announcements) s
      → Holds
          (Cooled (to_micros config.min_seconds_between_announcements))
          (announce i config key team message s)
  unfolding announce Spaced latest
  announce-Cooled i config key team message s h =
      branch
        (cooling config.min_seconds_between_announcements team i.now (last_of key s.last_announced))
        refl
    where
      branch :
          (b : Bool)
          → cooling config.min_seconds_between_announcements team i.now
              (last_of key s.last_announced)
            ≡ b
          → Holds
              (Cooled (to_micros config.min_seconds_between_announcements))
              (announce i config key team message s)
      branch true e = rw e h
      branch false e = rw e (
          Holds-bind (λ _. Unit) (Cooled (to_micros config.min_seconds_between_announcements))
            (send_live i config message) _ (ground arith)
            (λ ok _. (
              (λ k.
                  last_of-set_last key k (team, i.now) s.last_announced
                  ∙ ap (if◌then◌else◌ (same key k) (some (team, i.now))) (h.0 k)),
              (
                (λ at x.
                    cooling_off config.min_seconds_between_announcements team i.now at _ e
                      (h.0 key ∙ x)),
                h.1,
              ),
            )))

  announce_if-Cooled :
      (i : Input) (config : LiveConfig) (key team : Text) (o : Option Text) (s : Live)
      → Cooled (to_micros config.min_seconds_between_announcements) s
      → Holds
          (Cooled (to_micros config.min_seconds_between_announcements))
          (announce_if i config key team o s)
  unfolding announce_if
  announce_if-Cooled i config key team none s h = h
  announce_if-Cooled i config key team (some message) s h =
      announce-Cooled i config key team message s h

  on_change-Cooled :
      (i : Input) (config : LiveConfig) (name new_team slot : Text) (s : Live)
      → Cooled (to_micros config.min_seconds_between_announcements) s
      → Holds
          (Cooled (to_micros config.min_seconds_between_announcements))
          (on_change i config name new_team slot s)
  unfolding on_change
  on_change-Cooled i config name new_team slot s h =
      Holds-if (Cooled _) _ _ (is_empty name || is_empty new_team) h (
        announce_if-Cooled i config (slot ++ (b'|' ∷ py.lower name)) new_team
          (announcement_for name new_team) s h)

  on_event-Cooled :
      (config : LiveConfig) (i : Input) (v : Option Json) (s : Live)
      → Cooled (to_micros config.min_seconds_between_announcements) s
      → Holds (Cooled (to_micros config.min_seconds_between_announcements)) (on_event i config v s)
  unfolding on_event
  on_event-Cooled config i (some (dict event)) s h =
      Holds-if (Cooled _) _ _ (is_text (codes "team_change") (field_of event (codes "type")))
        (on_change-Cooled i config (strip (text_field event (codes "name")))
          (py.upper (strip (text_field event (codes "new_team")))) (text_field event (codes "slot"))
          s h)
        h
  on_event-Cooled config i _ s h = h

  on_input-Cooled :
      (config : LiveConfig) (i : Input) (s : Live)
      → Cooled (to_micros config.min_seconds_between_announcements) s
      → Holds (Cooled (to_micros config.min_seconds_between_announcements)) (on_input config i s)
  unfolding on_input
  on_input-Cooled config i s h =
      Holds-if (Cooled _) _ _ (is_empty (strip i.raw)) h
        (on_event-Cooled config i (py.json_loads (strip i.raw)) s h)

  live_loop-Cooled :
      (config : LiveConfig) (is : List Input) (s : Live)
      → Cooled (to_micros config.min_seconds_between_announcements) s
      → Holds (Cooled (to_micros config.min_seconds_between_announcements)) (live_loop config is s)
  unfolding live_loop
  live_loop-Cooled config [] s h = h
  live_loop-Cooled config (i ∷ is) s h =
      Holds-bind (Cooled (to_micros config.min_seconds_between_announcements))
        (Cooled (to_micros config.min_seconds_between_announcements)) (on_input config i s) _
        (on_input-Cooled config i s h) (live_loop-Cooled config is)

  -- Whatever lines a run of the addon reads, if the run comes to its end: of two announcements for
  -- one slot and lower-cased name that name the same team, with no other announcement for these
  -- between them, the second comes no sooner than `min_seconds_between_announcements` after the
  -- first.
  pub live_loop-Spaced :
      (config : LiveConfig) (is : List Input) {s : Live}
      → live_loop config is (record { last_announced = []; announced = [] }) ≡ returns s
      → Spaced (to_micros config.min_seconds_between_announcements) s.announced
  unfolding latest last_of Spaced
  live_loop-Spaced config is ran =
      (of_Holds (Cooled (to_micros config.min_seconds_between_announcements))
        (live_loop-Cooled config is _ ((λ k. refl), tt)) ran).1

-- ===== src/Team/Cooled.antt =====
-- The cooldown of bundled-addons/examples/deprecated/20-live-team-announcer.py.
use jedi_academy_pterodactyl.Prelude.{
  ltb, if◌then◌else◌, ℕ, ◌+◌, ◌≡◌, refl, Bool, true, false, Option, none, some, List, [], ◌∷◌,
  arith,
}
use jedi_academy_pterodactyl.Text.{Text, strip}
use jedi_academy_pterodactyl.Cooldown.{
  last_time, time_or_zero, pair_key, IsSpaced, Agrees, text_key, IsSpaced-cons, Agrees-set_time,
}
use jedi_academy_pterodactyl.Outcome.{Holds, anything, returns, Holds-bind, of_Holds}
use jedi_academy_pterodactyl.Team.Message.{
  Change, normalize_player_name, change_message, parse_change_team,
}
use jedi_academy_pterodactyl.Team.Loop.{
  TeamLine, on_team_change, unless_cooling, announce_change, team_loop, new_team_worker, Subject,
  TeamWorker, send_change, team_follow,
}
use jedi_academy_pterodactyl.Team.Config.{TeamConfig}
use jedi_academy_pterodactyl.Live.Announce.{to_micros}
use jedi_academy_pterodactyl.Python.Json.{Python}
use jedi_academy_pterodactyl.Follow.{TailTurn, Follower}
use jedi_academy_pterodactyl.Follow.Paced.{follow-state}

abbrev IsCooled : ℕ → TeamWorker → Type 0
IsCooled gap s = Agrees s.last_announced s.passed × IsSpaced gap s.passed

module _ ⦃py : Python⦄ where
  unless_cooling-IsCooled :
      (config : TeamConfig) (l : TeamLine) (subject : Subject) (o : Option Text) (s : TeamWorker)
      → IsCooled (to_micros config.min_seconds_between_announcements) s
      → Holds
          (IsCooled (to_micros config.min_seconds_between_announcements))
          (unless_cooling config l subject o s)
  unfolding unless_cooling announce_change
  unless_cooling-IsCooled config l subject none s h = h
  unless_cooling-IsCooled config l subject (some message) s h =
      branch
        (ltb l.now (
          time_or_zero subject s.last_announced
          + to_micros config.min_seconds_between_announcements))
        refl
    where
      branch :
          (b : Bool)
          → ltb l.now (
              time_or_zero subject s.last_announced
              + to_micros config.min_seconds_between_announcements)
            ≡ b
          → Holds
              (IsCooled (to_micros config.min_seconds_between_announcements))
              (if b then returns s else announce_change config l subject message s)
      branch true e = h
      branch false e =
          Holds-bind (λ _. Unit) (IsCooled (to_micros config.min_seconds_between_announcements))
            (send_change config l message) _ (anything _)
            (λ went _. (
              Agrees-set_time subject l.now s.last_announced s.passed h.0,
              IsSpaced-cons (to_micros config.min_seconds_between_announcements) subject l.now
                  s.last_announced s.passed h.0 (ground (arith, e)) h.1,
            ))

  on_team_change-IsCooled :
      (config : TeamConfig) (l : TeamLine) (o : Option Change) (s : TeamWorker)
      → IsCooled (to_micros config.min_seconds_between_announcements) s
      → Holds
          (IsCooled (to_micros config.min_seconds_between_announcements))
          (on_team_change config l o s)
  unfolding on_team_change
  on_team_change-IsCooled config l none s h = h
  on_team_change-IsCooled config l (some change) s h =
      unless_cooling-IsCooled config l
        (normalize_player_name change.player, py.upper (strip change.new_team))
        (change_message change.player change.new_team) s h

  team_loop-IsCooled :
      (config : TeamConfig) (ls : List TeamLine) (s : TeamWorker)
      → IsCooled (to_micros config.min_seconds_between_announcements) s
      → Holds
          (IsCooled (to_micros config.min_seconds_between_announcements))
          (team_loop config ls s)
  unfolding team_loop
  team_loop-IsCooled config [] s h = h
  team_loop-IsCooled config (l ∷ ls) s h =
      Holds-bind (IsCooled (to_micros config.min_seconds_between_announcements))
        (IsCooled (to_micros config.min_seconds_between_announcements))
        (on_team_change config l (parse_change_team l.raw) s) _
        (on_team_change-IsCooled config l (parse_change_team l.raw) s h)
        (team_loop-IsCooled config ls)

  -- Whatever tails and lines a run of the retired announcer meets, if the run comes to its end: of two
  -- changes of one player to one team that pass the cooldown, the second comes no sooner than
  -- `min_seconds_between_announcements` after the first, also with other changes or the end of a tail
  -- between them.
  pub team_follow-IsSpaced :
      (config : TeamConfig) (ts : List (TailTurn TeamLine)) {f : Follower TeamWorker}
      → team_follow config ts (record { state = new_team_worker; backoff = 1; slept = [] })
        ≡ returns f
      → IsSpaced (to_micros config.min_seconds_between_announcements) f.state.passed
  unfolding team_follow IsSpaced last_time
  team_follow-IsSpaced config ts ran =
      (of_Holds (λ g. IsCooled (to_micros config.min_seconds_between_announcements) g.state)
        (follow-state _ (team_loop config)
          (IsCooled (to_micros config.min_seconds_between_announcements))
          (team_loop-IsCooled config) ts
          (record { state = new_team_worker; backoff = 1; slept = [] }) ((λ key. refl), tt))
        ran).1

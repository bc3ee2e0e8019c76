-- ===== src/Tests/SwitchTheorems.antt =====
-- The theorem on the two loops of the announcer at a round in which the schedule goes away.
use jedi_academy_pterodactyl.Prelude.{pos, ◌≡◌, refl, true, false, none, [], ◌∷◌}
use jedi_academy_pterodactyl.Text.{codes}
use jedi_academy_pterodactyl.Outcome.{returns}
use jedi_academy_pterodactyl.Announcer.Loops.{Surroundings}
use jedi_academy_pterodactyl.Announcer.Switch.{
  worker_round-Fits, Fits, first_mode, in_interval, worker_round, new_rotation, has_exited, Round,
  new_pass, worker_rounds, in_schedule,
}
use jedi_academy_pterodactyl.Announcer.Config.{AnnouncerConfig}
use jedi_academy_pterodactyl.Announcer.Schedule.{every_seconds}

abbrev no_schedule : AnnouncerConfig
no_schedule = record {
  enabled = true;
  startup_delay_seconds = pos 0;
  interval_seconds = pos 60;
  rcon_timeout_seconds = pos 3;
  announce_command = codes "svsay";
  log_path = codes "a.log";
  rcon_host = codes "127.0.0.1";
  schedule = [];
  timezone = none;
  messages = codes "hi" ∷ [];
}

abbrev one_periodic : AnnouncerConfig
one_periodic = record no_schedule {
  schedule = record { slot = every_seconds 60; message = none } ∷ [];
}

abbrev still_noon : Surroundings
still_noon = record {
  reconciled = 0;
  today = 0;
  now_monotonic = 60000000;
  clock = λ _. record { date = 0; micros = 0 };
  messages = [];
  dispatch = λ _ _. returns true;
}

abbrev round_with : AnnouncerConfig → Round
round_with config = record { config = returns config; base = 0; around = still_noon; stops = false }

falls_back :
    worker_round (round_with no_schedule) (in_schedule (new_pass 0 one_periodic))
    ≡ returns (in_interval new_rotation)
unfolding worker_round
falls_back = refl

-- The schedule goes away, a message is due, the schedule comes back, and the worker is disabled.
goes_through :
    worker_rounds
      (round_with no_schedule
        ∷ round_with no_schedule
        ∷ round_with one_periodic
        ∷ round_with (record no_schedule { enabled = false })
        ∷ [])
      (first_mode 0 one_periodic)
    ≡ returns has_exited
unfolding worker_rounds first_mode
goes_through = refl

worker_round-Fits_example : Fits no_schedule (in_interval new_rotation)
worker_round-Fits_example =
    worker_round-Fits (round_with no_schedule) (in_schedule (new_pass 0 one_periodic)) refl
      falls_back

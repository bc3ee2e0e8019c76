-- ===== src/Tests/LiveTheorems.antt =====
-- The theorem on the live team announcer at a concrete input.

use jedi_academy_pterodactyl.Tests.Ascii.{ascii}
use jedi_academy_pterodactyl.Prelude.{
  if◌then◌else◌, pos, ℕ, ◌≡◌, refl, true, false, none, some, List, [], ◌∷◌, map,
}
use jedi_academy_pterodactyl.Text.{codes, same, strip}
use jedi_academy_pterodactyl.Config.{Environment, getenv_or}
use jedi_academy_pterodactyl.Outcome.{raises, returns, os_error, Outcome}
use jedi_academy_pterodactyl.Live.Config.{LiveConfig}
use jedi_academy_pterodactyl.Live.Cooldown.{Spaced, live_loop-Spaced}
use jedi_academy_pterodactyl.Live.Announce.{live_loop, Input, Live, text_field, is_text}
use jedi_academy_pterodactyl.Scalars.{safe_int}
use jedi_academy_pterodactyl.Python.Dict.{get_or}
use jedi_academy_pterodactyl.Runtime.Env.{
  send_quietly, rcon_password, server_port_of, load_runtime_env,
}

abbrev three_seconds : LiveConfig
three_seconds = record {
  enabled = true;
  rcon_timeout_seconds = pos 3;
  min_seconds_between_announcements = pos 3;
  announce_command = codes "svsay";
  rcon_host = codes "127.0.0.1";
}

abbrev with_password : Environment
with_password = record {
  getenv = λ name.
      if same name (codes "TAYSTJK_EFFECTIVE_SERVER_RCON_PASSWORD")
      then some (codes "pw")
      else none;
  read_text = λ _. raises os_error;
  is_file = λ _. false;
}

abbrev joins_at : ℕ → Input
joins_at now = record {
  raw = codes "TEAM\n";
  now = now;
  env = with_password;
  exchange = λ _ _ _ _. returns none;
}

abbrev live_of : Outcome Live → Live
live_of (returns s) = s
live_of (raises e) = record { last_announced = []; announced = [] }

abbrev three_joins : List Input
three_joins = joins_at 0 ∷ joins_at 1000000 ∷ joins_at 4000000 ∷ []

abbrev heard : Live
heard =
    live_of (live_loop three_seconds three_joins (record { last_announced = []; announced = [] }))

heard_runs :
    live_loop three_seconds three_joins (record { last_announced = []; announced = [] })
    ≡ returns heard
unfolding live_loop strip is_text text_field rcon_password load_runtime_env get_or server_port_of
    safe_int getenv_or send_quietly
heard_runs = refl

two_announced : map (λ a. a.at) heard.announced ≡ 4000000 ∷ 0 ∷ []
unfolding live_loop strip is_text text_field rcon_password load_runtime_env get_or server_port_of
    safe_int getenv_or send_quietly
two_announced = refl

live_loop-Spaced_example : Spaced 3000000 heard.announced
live_loop-Spaced_example = live_loop-Spaced three_seconds three_joins heard_runs

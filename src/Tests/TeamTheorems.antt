-- ===== src/Tests/TeamTheorems.antt =====
-- The theorem on the retired live team announcer, and its own self-test.
use jedi_academy_pterodactyl.Tests.Ascii.{ascii}
use jedi_academy_pterodactyl.Prelude.{
  if◌then◌else◌, pos, ℕ, ◌≡◌, refl, true, false, none, some, List, [], ◌∷◌, map, Bool,
}
use jedi_academy_pterodactyl.Text.{Text, codes, same, is_space, strip}
use jedi_academy_pterodactyl.Config.{Environment}
use jedi_academy_pterodactyl.Cooldown.{text_key, pair_key, IsSpaced, same_pair}
use jedi_academy_pterodactyl.Outcome.{os_error, returns, Outcome, raises}
use jedi_academy_pterodactyl.Team.Message.{message_of_line}
use jedi_academy_pterodactyl.Team.Loop.{
  new_team_worker, TeamWorker, TeamLine, team_follow, is_team_enabled,
}
use jedi_academy_pterodactyl.Team.Config.{TeamConfig}
use jedi_academy_pterodactyl.Team.Cooled.{team_follow-IsSpaced}
use jedi_academy_pterodactyl.Follow.{TailTurn, start_of, follows, Follower}
use jedi_academy_pterodactyl.Scalars.{safe_int}

abbrev padawan : Text
padawan = codes "ChangeTeam: 0 [203.0.113.1] (GUID) \"Padawan\" SPECTATOR -> RED"

padawan_said : message_of_line padawan ≡ some (codes "Padawan joined RED TEAM")
unfolding message_of_line is_space strip
padawan_said = refl

akion_said :
    message_of_line (codes "ChangeTeam: 1 [203.0.113.2:29070] (GUID) \"Akion^7\" RED -> BLUE")
    ≡ some (codes "Akion joined BLUE TEAM")
unfolding message_of_line is_space strip
akion_said = refl

robin_said :
    message_of_line (codes "ChangeTeam: 2 [203.0.113.3] (GUID) \"Robin\" BLUE -> SPECTATOR")
    ≡ some (codes "Robin changed SPECTATORS")
unfolding message_of_line is_space strip
robin_said = refl

others_silent : message_of_line (codes "say: Akion: hello") ≡ none
unfolding message_of_line
others_silent = refl

abbrev team_env : Environment
team_env = record {
  getenv = λ name.
      if same name (codes "TAYSTJK_EFFECTIVE_SERVER_RCON_PASSWORD")
      then some (codes "pw")
      else none;
  read_text = λ _. raises os_error;
  is_file = λ _. false;
}

abbrev changes_at : ℕ → TeamLine
changes_at now = record {
  raw = padawan;
  now = now;
  env = team_env;
  exchange = λ _ _ _ _. returns none;
}

abbrev live_env : Environment
live_env = record {
  getenv = λ name.
      if same name (codes "TAYSTJK_LIVE_OUTPUT_ENABLED")
      then some (codes "true")
      else if same name (codes "TAYSTJK_LIVE_OUTPUT_PATH")
      then some (codes "/live.log")
      else none;
  read_text = λ _. raises os_error;
  is_file = λ _. false;
}

abbrev team_config : TeamConfig
team_config = record {
  enabled = true;
  rcon_timeout_seconds = pos 3;
  min_seconds_between_announcements = pos 3;
  announce_command = codes "svsay";
  rcon_host = codes "127.0.0.1";
  fallback_to_server_log = true;
}

abbrev fresh : Follower TeamWorker
fresh = record { state = new_team_worker; backoff = 1; slept = [] }

abbrev tail_at : Bool → List TeamLine → TailTurn TeamLine
tail_at present input = record { env = live_env; present = present; starts = true; input = input }

abbrev three_turns : List (TailTurn TeamLine)
three_turns =
    tail_at false []
    ∷ tail_at true (changes_at 4000000 ∷ changes_at 5000000 ∷ [])
    ∷ tail_at true (changes_at 7000000 ∷ [])
    ∷ []

abbrev follower_of : Outcome (Follower TeamWorker) → Follower TeamWorker
follower_of (returns f) = f
follower_of (raises e) = fresh

abbrev told_run : Follower TeamWorker
told_run = follower_of (team_follow team_config three_turns fresh)

told_runs : team_follow team_config three_turns fresh ≡ returns told_run
unfolding team_follow strip safe_int same_pair
told_runs = refl

two_told : map (λ (subject, at). at) told_run.state.passed ≡ 7000000 ∷ 4000000 ∷ []
unfolding team_follow strip safe_int same_pair
two_told = refl

team_follow-IsSpaced_example : IsSpaced 3000000 told_run.state.passed
team_follow-IsSpaced_example = team_follow-IsSpaced team_config three_turns told_runs

starts_enabled : start_of is_team_enabled (returns team_config) true ≡ returns follows
unfolding start_of
starts_enabled = refl

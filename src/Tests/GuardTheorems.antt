-- ===== src/Tests/GuardTheorems.antt =====
-- The theorems on the RCON live guard at concrete inputs.
use jedi_academy_pterodactyl.Prelude.{
  if◌then◌else◌, All, pos, ℕ, ◌≡◌, refl, true, false, none, some, List, [], ◌∷◌, map, arith, Bool,
}
use jedi_academy_pterodactyl.Text.{contains, codes, same, is_one_of, strip}
use jedi_academy_pterodactyl.Config.{Environment}
use jedi_academy_pterodactyl.Cooldown.{IsSpaced, pair_key, text_key}
use jedi_academy_pterodactyl.Outcome.{Outcome, returns, raises, os_error}
use jedi_academy_pterodactyl.Guard.Endures.{IsComplete, guard_loop-returns}
use jedi_academy_pterodactyl.Guard.Loop.{
  Event, guard_loop, Guard, idle, guard_follow, is_guard_enabled,
}
use jedi_academy_pterodactyl.Guard.Address.{bare_ip-port, bare_ip, isdigit}
use jedi_academy_pterodactyl.Guard.Permitted.{text_or_none, IsPermitted, enforce_with-IsPermitted}
use jedi_academy_pterodactyl.Guard.Config.{Pattern, load_guard_config, GuardConfig, Compiler}
use jedi_academy_pterodactyl.Guard.Enforce.{Net, enforce_with, ask_status, status_players}
use jedi_academy_pterodactyl.Guard.Spaced.{guard_follow-IsSpaced}
use jedi_academy_pterodactyl.Tests.Ascii.{ascii}
use jedi_academy_pterodactyl.Scalars.{safe_int}
use jedi_academy_pterodactyl.Python.Dict.{field_of}
use jedi_academy_pterodactyl.Guard.Valid.{IsValid, load_guard_config-IsValid}
use jedi_academy_pterodactyl.Follow.{Follower, launches, TailTurn, follows, start_of}
use jedi_academy_pterodactyl.Guard.Runtime.{guard_tail_source}
use jedi_academy_pterodactyl.Follow.Paced.{IsPaced, follow-IsPaced}

-- A pattern that finds an attempt in every line that is not empty.
abbrev any_line : Pattern
any_line = record {
  has_ip = true;
  has_command = true;
  find =
      λ s. elim s [ [] ↦ none | c ∷ cs ↦ some (some (codes "10.0.0.9:29070"), some (codes "map")) ];
}

-- The same, for a pattern without the group `command`.
abbrev any_source : Pattern
any_source = record {
  has_ip = true;
  has_command = false;
  find = λ s. elim s [ [] ↦ none | c ∷ cs ↦ some (some (codes "10.0.0.9:29070"), none) ];
}

-- The group `command` of a pattern is that of its text.
abbrev by_groups : Compiler
unfolding contains
by_groups raw = if contains raw (codes "(?P<command>") then some any_line else some any_source

abbrev guard_env : Environment
guard_env = record {
  getenv = λ name.
      if same name (codes "TAYSTJK_EFFECTIVE_SERVER_RCON_PASSWORD")
      then some (codes "pw")
      else none;
  read_text = λ _. raises os_error;
  is_file = λ _. false;
}

abbrev guard_config : GuardConfig
guard_config = record {
  enabled = true;
  rcon_host = codes "127.0.0.1";
  rcon_timeout_seconds = pos 3;
  fallback_to_server_log = true;
  log_file = codes "guard.log";
  min_seconds_between_actions = pos 10;
  broadcast_command = codes "svsay";
  kick_command_template = codes "clientkick {slot}";
  broadcast_template = codes "{player} was kicked";
  ignore_ip_hosts = codes "127.0.0.1" ∷ [];
  compiled_patterns = any_line ∷ [];
}

-- The server lists one player, at the address of the attempt.
abbrev one_player : Net
one_player = record {
  opens = λ _. true;
  exchange = λ _ _ _ _. returns (
      some (
        codes
          "num score ping name\n--- ----- ---- ----\n  4  0  50  Kyle  0  10.0.0.9:29070  100  25000"));
}

-- No socket can be opened.
abbrev no_socket : Net
no_socket = record { opens = λ _. false; exchange = λ _ _ _ _. raises os_error }

abbrev attempt_at : Net → ℕ → Event
attempt_at net now = record {
  raw = codes "Bad rcon";
  now = now;
  env = guard_env;
  net = net;
  log_fails = none;
}

abbrev three_attempts : List Event
three_attempts =
    attempt_at one_player 20000000
    ∷ attempt_at one_player 25000000
    ∷ attempt_at no_socket 31000000
    ∷ []

abbrev guard_of : Outcome Guard → Guard
guard_of (returns s) = s
guard_of (raises e) = idle

abbrev guarded : Guard
guarded = guard_of (guard_loop guard_config three_attempts idle)

guarded_runs : guard_loop guard_config three_attempts idle ≡ returns guarded
unfolding guard_loop strip safe_int field_of
guarded_runs = refl

two_acted : map (λ (ip, at). at) guarded.acted ≡ 31000000 ∷ 20000000 ∷ []
unfolding guard_loop strip safe_int field_of
two_acted = refl

commands_sent :
    guarded.sent
    ≡ [] ∷ (codes "status" ∷ codes "clientkick 4" ∷ codes "svsay \"Kyle was kicked\"" ∷ []) ∷ []
unfolding guard_loop strip safe_int field_of
commands_sent = refl

bare_ip-port_example : bare_ip (codes "10.0.0.9:29070") ≡ codes "10.0.0.9"
bare_ip-port_example =
    bare_ip-port b'1' (codes "0.0.0.9") (codes "29070") (unfold strip in refl) refl
      (unfold isdigit in refl)

-- An address that ends in a group of digits loses that group.
loopback_loses_group : bare_ip (codes "::1") ≡ codes ":"
unfolding bare_ip strip
loopback_loses_group = refl

abbrev live_env : Environment
live_env = record {
  getenv = λ name.
      if same name (codes "TAYSTJK_LIVE_OUTPUT_ENABLED")
      then some (codes "True")
      else if same name (codes "TAYSTJK_LIVE_OUTPUT_PATH")
      then some (codes "/live.log")
      else none;
  read_text = λ _. raises os_error;
  is_file = λ _. false;
}

abbrev tail_of : Environment → Bool → List Event → TailTurn Event
tail_of env starts input = record { env = env; present = true; starts = starts; input = input }

abbrev four_turns : List (TailTurn Event)
four_turns =
    tail_of guard_env true []
    ∷ tail_of live_env false []
    ∷ tail_of live_env true (attempt_at one_player 20000000 ∷ attempt_at one_player 25000000 ∷ [])
    ∷ tail_of live_env true (attempt_at no_socket 31000000 ∷ [])
    ∷ []

abbrev fresh : Follower Guard
fresh = record { state = idle; backoff = 1; slept = [] }

abbrev follower_of : Outcome (Follower Guard) → Follower Guard
follower_of (returns f) = f
follower_of (raises e) = fresh

abbrev followed : Follower Guard
followed = follower_of (guard_follow guard_config four_turns fresh)

followed_runs : guard_follow guard_config four_turns fresh ≡ returns followed
unfolding guard_follow strip safe_int field_of
followed_runs = refl

pauses_between : followed.slept ≡ 1 ∷ 1 ∷ 1 ∷ 5 ∷ []
unfolding guard_follow strip safe_int field_of
pauses_between = refl

guard_follow-IsSpaced_example :
    IsSpaced 10000000 followed.state.acted
    × All
        (λ (ip, at). is_one_of (ascii.lower ip) (codes "127.0.0.1" ∷ []) ≡ false)
        followed.state.acted
guard_follow-IsSpaced_example =
    guard_follow-IsSpaced guard_config four_turns (omega arith) followed_runs

follow-IsPaced_example : IsPaced followed
unfolding guard_follow
follow-IsPaced_example =
    follow-IsPaced (λ env. guard_tail_source env true) (guard_loop guard_config) four_turns idle
      followed_runs

starts_enabled : start_of is_guard_enabled (returns guard_config) true ≡ returns follows
unfolding start_of
starts_enabled = refl

no_second_launch : launches is_guard_enabled (returns guard_config) false ≡ returns false
unfolding launches
no_second_launch = refl

enforce_with-IsPermitted_example :
    All
      (IsPermitted guard_config (codes "10.0.0.9") (
        status_players
          (text_or_none (ask_status one_player guard_config (pos 29070) (codes "pw")).outcome)))
      (enforce_with one_player guard_config (codes "10.0.0.9") (pos 29070) (codes "pw")).commands
enforce_with-IsPermitted_example =
    enforce_with-IsPermitted one_player guard_config (codes "10.0.0.9") (pos 29070) (codes "pw")

abbrev config_of : Outcome GuardConfig → GuardConfig
config_of (returns c) = c
config_of (raises e) = guard_config

abbrev loaded : GuardConfig
loaded = config_of (load_guard_config by_groups guard_env)

loads : load_guard_config by_groups guard_env ≡ returns loaded
unfolding load_guard_config
loads = refl

any_line-IsComplete : IsComplete any_line
any_line-IsComplete [] ip command e = cc
any_line-IsComplete (c ∷ cs) ip command e = ground (arith, e)

any_source-IsComplete : IsComplete any_source
any_source-IsComplete [] ip command e = cc
any_source-IsComplete (c ∷ cs) ip command e = ground (arith, e)

guard_loop-returns_example : (s : Guard) × (guard_loop loaded three_attempts idle ≡ returns s)
unfolding load_guard_config by_groups
guard_loop-returns_example =
    guard_loop-returns by_groups guard_env three_attempts loads
      (
        any_line-IsComplete,
        (
          any_source-IsComplete,
          (any_line-IsComplete, (any_line-IsComplete, (any_source-IsComplete, tt))),
        ),
      )
      (refl, (refl, (refl, tt)))

load_guard_config-IsValid_example : IsValid loaded
load_guard_config-IsValid_example = load_guard_config-IsValid by_groups guard_env loads

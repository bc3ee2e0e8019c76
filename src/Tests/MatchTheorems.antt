-- ===== src/Tests/MatchTheorems.antt =====
-- The theorems on the match announcer at concrete inputs.
use jedi_academy_pterodactyl.Tests.Ascii.{ascii, init_raw, score_raw}
use jedi_academy_pterodactyl.Tests.MatchRuns.{sends, at, fresh, made, script}
use jedi_academy_pterodactyl.Match.Config.{
  default_config, parse_configured_gametypes, gametypes_from, add_gametype, load_config,
  normalize_messages, normalise,
}
use jedi_academy_pterodactyl.Prelude.{
  length, is_empty, pos, ◌+◌, ◌*◌, ◌≤◌, ◌<◌, ◌≡◌, refl, ◌↔◌, true, false, none, some, [], ◌∷◌,
  arith,
}
use jedi_academy_pterodactyl.Text.{Text, codes, same, is_space, strip}
use jedi_academy_pterodactyl.Config.{addon_config_env, Environment, loaded_section, overlay}
use jedi_academy_pterodactyl.Format.{format_text}
use jedi_academy_pterodactyl.Outcome.{returns, raises, Outcome, os_error}
use jedi_academy_pterodactyl.Python.Json.{str, Fields, dict, end, Json, field}
use jedi_academy_pterodactyl.Python.Dict.{as_fields, field_of, put, get, Dict, get_or}
use jedi_academy_pterodactyl.Python.Convert.{int_of, str_or_empty}
use jedi_academy_pterodactyl.Match.Runs.{sent_le_votes, main_loop-Inv, votes}
use jedi_academy_pterodactyl.Match.Render.{
  end_message_key, score_values, end_group, command_for_group, start_group, render_message,
}
use jedi_academy_pterodactyl.Match.Loop.{
  on_line, main_loop, on_tick, deliver, call_sends, call_send, parse_event,
}
use jedi_academy_pterodactyl.Match.Patterns.{
  team_score, exit_hit, is_final_scoreboard_broadcast, vote_passed, parse_gametype,
}
use jedi_academy_pterodactyl.Match.Invariant.{Inv}
use jedi_academy_pterodactyl.Match.Ending.{
  IsScore, vote_window, score_line_ends_once, passive_ignores, IsOrdinary, start_sent_once,
}
use jedi_academy_pterodactyl.Match.Machine.{
  on_score, store_scores, raw_of, supported, emit, emitted_line, MatchAnnouncer, new_announcer,
  on_match_line, on_init_game, event_type, is_armed_now, tick, send_match_start,
  maybe_send_pending_match_start, dispatch, reset_match, send_summary_and_reset, sent, disarm,
  activate, requires_vote, on_raw_line, handle_event,
}
use jedi_academy_pterodactyl.Rcon.Quote.{sanitize_text}
use jedi_academy_pterodactyl.Scalars.{safe_int, safe_bool}
use jedi_academy_pterodactyl.Match.Commands.{
  load_config-commands, parse_configured_gametypes-OnlyTffa, HasAllowed, OnlyTffa,
}

abbrev value : Outcome MatchAnnouncer → MatchAnnouncer
value (returns m) = m
value (raises e) = fresh

abbrev begun : MatchAnnouncer
begun = value made

made-begun : made ≡ returns begun
unfolding new_announcer parse_configured_gametypes gametypes_from add_gametype int_of get same
made-begun = refl

abbrev finished : MatchAnnouncer
finished = value (main_loop sends script 10000 [] begun)

requires_vote-begun : requires_vote begun ≡ true
unfolding new_announcer parse_configured_gametypes gametypes_from add_gametype int_of get put same
    requires_vote normalize_messages
requires_vote-begun = refl

begun_runs : main_loop sends script 10000 [] begun ≡ returns finished
unfolding new_announcer main_loop on_line on_tick deliver call_sends call_send parse_event
    handle_event dispatch on_raw_line on_match_line on_score store_scores send_summary_and_reset
    on_init_game is_armed_now activate disarm reset_match tick maybe_send_pending_match_start
    send_match_start emit emitted_line render_message command_for_group event_type raw_of
    vote_passed exit_hit team_score parse_gametype gametypes_from add_gametype int_of requires_vote
    is_final_scoreboard_broadcast get put field_of same strip sanitize_text format_text
    parse_configured_gametypes str_or_empty as_fields normalize_messages end_message_key is_space
begun_runs = refl

sent_le_votes_example : length finished.outbox ≤ 2 * votes script
sent_le_votes_example =
    sent_le_votes sends (default_config (codes "/home/container")) script 10000 [] begun finished
      made-begun requires_vote-begun begun_runs

fresh-Inv : Inv fresh
fresh-Inv = ground arith

main_loop-Inv_example : Inv finished
main_loop-Inv_example =
    main_loop-Inv sends (default_config (codes "/home/container")) script 10000 [] made-begun
      begun_runs

-- A configuration without texts of its own.
abbrev plain_config : Dict
plain_config = (codes "announce_command", str (codes "say")) ∷ []

abbrev plain_announcer : MatchAnnouncer
plain_announcer = record fresh { config = plain_config }

-- A running match, before its start line.
abbrev running : MatchAnnouncer
running = record fresh {
  match_started = true;
  pending_match_start = true;
  pending_match_start_at = some 7000;
  current_gametype = some 6;
}

running-Inv : Inv running
running-Inv = ground arith

fields_of : Json → Fields
fields_of (dict fs) = fs
fields_of v = end

abbrev score_event : Fields
score_event =
    field (codes "type") (str (codes "raw_line")) (field (codes "raw") (str (codes score_raw)) end)

score_event_scores : IsScore score_event 8 5
unfolding event_type raw_of vote_passed exit_hit team_score field_of same is_space str_or_empty
score_event_scores = record {
  raw_event = refl;
  nonempty = refl;
  no_vote = refl;
  no_exit = refl;
  scores = refl;
}

abbrev red_wins : Text
red_wins = codes "^3Match Ended ^7- ^1RED TEAM wins."

red_wins_rendered :
    render_message running.config
      (end_message_key (some 8) (some 5))
      (score_values (some 8) (some 5))
    ≡ returns red_wins
unfolding render_message end_message_key get field_of as_fields sanitize_text same strip format_text
red_wins_rendered = refl

not_blank : is_empty (strip red_wins) ≡ false
unfolding strip
not_blank = refl

score_line_ends_once_example :
    (m' : MatchAnnouncer) × (handle_event (dict score_event) (at 6000) running ≡ returns m')
    × (m'.outbox ≡ sent (emitted_line red_wins) (command_for_group running.config end_group) ∷ [])
    × (m'.match_started ≡ false)
    × (m'.armed ≡ false)
    × (handle_event (dict score_event) (at 6100) m' ≡ returns m')
score_line_ends_once_example =
    score_line_ends_once score_event score_event 8 5 8 5 red_wins (at 6000) (at 6100) running
      running-Inv refl score_event_scores score_event_scores red_wins_rendered not_blank

score-IsOrdinary : IsOrdinary score_event
score-IsOrdinary = record {
  no_init = λ e. cc (score_event_scores.raw_event, e);
  no_vote = score_event_scores.no_vote;
}

passive_ignores_example : handle_event (dict score_event) (at 10) fresh ≡ returns fresh
passive_ignores_example = passive_ignores score_event (at 10) fresh fresh-Inv refl score-IsOrdinary

abbrev armed_fresh : MatchAnnouncer
armed_fresh = record fresh { armed = true; armed_at = some 1000 }

init_supported : supported (parse_gametype (codes init_raw)) (pos 6 ∷ []) ≡ true
unfolding parse_gametype
init_supported = refl

fresh-requires_vote : requires_vote armed_fresh ≡ true
unfolding requires_vote get same
fresh-requires_vote = refl

vote_window_example :
    let m' = on_init_game (codes init_raw) (at 31000) armed_fresh in
    ((m'.match_started ≡ true) ↔ (31000 ≤ 1000 + 30000))
    × (m'.match_started ≡ true
        → (m'.pending_match_start ≡ true) × (m'.pending_match_start_at ≡ some (31000 + 2000)))
    × (m'.armed ≡ false)
    × (m'.outbox ≡ [])
vote_window_example =
    vote_window (codes init_raw) (at 31000) 1000 armed_fresh fresh-requires_vote refl refl refl
      init_supported

abbrev start_text : Text
start_text = codes "^3Match Started ^7- ^2Good Luck, Have Fun!"

start_rendered : render_message running.config (codes "tffa_start") end ≡ returns start_text
unfolding render_message get field_of as_fields sanitize_text same strip format_text
start_rendered = refl

start_not_blank : is_empty (strip start_text) ≡ false
unfolding strip
start_not_blank = refl

start_sent_once_example :
    (6999 < 7000 → tick 6999 running ≡ returns running)
    × (7000 ≤ 6999
        → (m' : MatchAnnouncer) × (tick 6999 running ≡ returns m')
          × (m'.outbox
              ≡ sent (emitted_line start_text) (command_for_group running.config start_group) ∷ [])
          × (tick 8000 m' ≡ returns m'))
start_sent_once_example =
    start_sent_once 7000 6999 8000 start_text running running-Inv refl refl refl start_rendered
      start_not_blank

abbrev environment : Environment
environment = record {
  getenv =
      λ name. elim (same name addon_config_env) [ true ↦ some (codes "CONFIG") | false ↦ none ];
  read_text = λ path. raises os_error;
  is_file = λ path. false;
}

abbrev config_value : Outcome Dict → Dict
config_value (returns c) = c
config_value (raises e) = []

environment_loads : load_config environment ≡ returns (config_value (load_config environment))
unfolding load_config loaded_section normalise same strip field_of get put safe_int safe_bool get_or
    overlay parse_configured_gametypes gametypes_from add_gametype int_of
environment_loads = refl

load_config-commands_example :
    HasAllowed (codes "announce_command") (config_value (load_config environment))
    × HasAllowed (codes "match_start_command") (config_value (load_config environment))
    × HasAllowed (codes "match_end_command") (config_value (load_config environment))
load_config-commands_example = load_config-commands environment environment_loads

parse_configured_gametypes_loads :
    parse_configured_gametypes (default_config (codes "/home/container")) ≡ returns (pos 6 ∷ [])
unfolding parse_configured_gametypes gametypes_from add_gametype int_of same
parse_configured_gametypes_loads = refl

parse_configured_gametypes-OnlyTffa_example : OnlyTffa (pos 6 ∷ [])
parse_configured_gametypes-OnlyTffa_example =
    parse_configured_gametypes-OnlyTffa (default_config (codes "/home/container"))
      parse_configured_gametypes_loads

-- ===== src/Tests/MatchRuns.antt =====
-- One match from the vote to the summary.

use jedi_academy_pterodactyl.Tests.Ascii.{ascii, vote_raw, init_raw, score_raw}
use jedi_academy_pterodactyl.Match.Config.{
  default_config, gametypes_from, add_gametype, parse_configured_gametypes, normalize_messages,
}
use jedi_academy_pterodactyl.Prelude.{ℕ, ◌≡◌, refl, true, false, some, pos, none, List, [], ◌∷◌}
use jedi_academy_pterodactyl.Text.{codes, same, strip, is_space}
use jedi_academy_pterodactyl.Match.Patterns.{
  is_final_scoreboard_broadcast, parse_gametype, team_score, vote_passed, exit_hit,
}
use jedi_academy_pterodactyl.Match.Machine.{
  Readings, on_init_game, sent, emitted_line, reset_match, on_score, activate, MatchAnnouncer,
  new_announcer, send_summary_and_reset, requires_vote, Sent, event_type, send_match_start,
  on_match_line, disarm, raw_of, is_armed_now, maybe_send_pending_match_start, on_raw_line,
  store_scores, dispatch, handle_event, emit, tick,
}
use jedi_academy_pterodactyl.Format.{format_text}
use jedi_academy_pterodactyl.Outcome.{value_error, returns, ◌>>=◌, raises, Outcome}
use jedi_academy_pterodactyl.Python.Json.{str, Json}
use jedi_academy_pterodactyl.Python.Dict.{field_of, put, get, as_fields}
use jedi_academy_pterodactyl.Python.Convert.{int_of, str_or_empty}
use jedi_academy_pterodactyl.Match.Render.{render_message, command_for_group, end_message_key}
use jedi_academy_pterodactyl.Match.Loop.{
  input_closed, Sender, on_tick, deliver, call_sends, call_send, parse_event, timed_out, line_read,
  on_line, main_loop, Poll,
}
use jedi_academy_pterodactyl.Rcon.Quote.{sanitize_text}

abbrev pub at : ℕ → Readings
at n = record { checked = n; stamped = n; pumped = n }

parse_gametype_test : parse_gametype (codes init_raw) ≡ some 6
unfolding parse_gametype
parse_gametype_test = refl

team_score_test : team_score (codes score_raw) ≡ some (some 8, some 5)
unfolding team_score is_space
team_score_test = refl

vote_passed_test :
    (vote_passed (codes vote_raw) ≡ true) × (vote_passed (codes "@@@VOTEPASSED (map x)") ≡ false)
unfolding vote_passed is_space
vote_passed_test = (refl, refl)

scoreboard_test :
    is_final_scoreboard_broadcast
      (codes "broadcast: print \"Name  Score\\nKills Deaths Dmg\\n  Given Dmg  Taken\"")
    ≡ true
unfolding is_final_scoreboard_broadcast is_space
scoreboard_test = refl

-- The announcer with the default configuration.
abbrev pub fresh : MatchAnnouncer
fresh = record {
  config = default_config (codes "/home/container");
  gametypes = pos 6 ∷ [];
  armed = false;
  armed_at = none;
  match_started = false;
  match_ending = false;
  summary_sent = false;
  match_start_sent = false;
  pending_match_start = false;
  pending_match_start_at = none;
  final_red_score = none;
  final_blue_score = none;
  current_gametype = none;
  outbox = [];
}

-- The fresh announcer after `__init__` has put its fields in order.
abbrev pub made : Outcome MatchAnnouncer
made = new_announcer (default_config (codes "/home/container"))

-- A sender that returns.
abbrev pub sends : Sender
sends line command before = returns tt

abbrev pub script : List Poll
script =
    line_read (codes "VOTE\n") (at 1000)
    ∷ line_read (codes "INIT\n") (at 5000)
    ∷ timed_out 6000
    ∷ timed_out 7000
    ∷ line_read (codes "SCORE\n") (at 9000)
    ∷ input_closed
    ∷ []

abbrev pub svsay : Json
svsay = str (codes "svsay")

-- What one match sends, the last line first.
abbrev pub both_lines : List Sent
both_lines =
    sent (codes "^3Match Ended ^7- ^1RED TEAM wins.") svsay
    ∷ sent (codes "^3Match Started ^7- ^2Good Luck, Have Fun!") svsay
    ∷ []

abbrev pub after : Outcome MatchAnnouncer → List Sent
after (returns m) = m.outbox
after (raises e) = []

-- A sender that raises ends the run.
abbrev raising : Sender
raising line command before = raises value_error

raising_run : (made >>= main_loop raising script 10000 []) ≡ raises value_error
unfolding new_announcer main_loop on_line on_tick deliver call_sends call_send parse_event
    handle_event dispatch on_raw_line on_match_line on_score store_scores send_summary_and_reset
    on_init_game is_armed_now activate disarm reset_match tick maybe_send_pending_match_start
    send_match_start emit emitted_line render_message command_for_group event_type raw_of
    vote_passed exit_hit team_score parse_gametype gametypes_from add_gametype int_of requires_vote
    is_final_scoreboard_broadcast get put field_of same strip sanitize_text format_text
    parse_configured_gametypes str_or_empty as_fields normalize_messages end_message_key is_space
raising_run = refl

match_run : after (made >>= main_loop sends script 10000 []) ≡ both_lines
unfolding new_announcer main_loop on_line on_tick deliver call_sends call_send parse_event
    handle_event dispatch on_raw_line on_match_line on_score store_scores send_summary_and_reset
    on_init_game is_armed_now activate disarm reset_match tick maybe_send_pending_match_start
    send_match_start emit emitted_line render_message command_for_group event_type raw_of
    vote_passed exit_hit team_score parse_gametype gametypes_from add_gametype int_of requires_vote
    is_final_scoreboard_broadcast get put field_of same strip sanitize_text format_text
    parse_configured_gametypes str_or_empty as_fields normalize_messages end_message_key is_space
match_run = refl

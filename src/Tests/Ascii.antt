-- ===== src/Tests/Ascii.antt =====
-- A Python runtime for ASCII texts, for the runs on concrete inputs. `json_loads` knows the few
-- documents that the tests read.
use jedi_academy_pterodactyl.Prelude.{
  ◌==◌, if◌then◌else◌, ℕ, ◌+◌, ◌-◌, ◌<◌, String, ◌≡◌, refl, Bool, ◌||◌, Option, none, some, [], ◌∷◌,
  map, arith, ltb,
}
use jedi_academy_pterodactyl.Text.{Text, codes, same, between}
use jedi_academy_pterodactyl.Outcome.{value_error, raises}
use jedi_academy_pterodactyl.Python.Json.{
  dict, end, field, Json, upper_ascii, lower_ascii, str, Python,
}

abbrev pub digit_of : ℕ → Option ℕ
digit_of c = if between b'0' b'9' c then some (c - b'0') else none

abbrev pub word_char : ℕ → Bool
word_char c = between b'0' b'9' c || between b'A' b'Z' c || between b'a' b'z' c || c == b'_'

pub digit_of_lem : (d : ℕ) → d < 10 → digit_of (b'0' + d) ≡ some d
digit_of_lem d h = ground arith

pub digit_of-lt : (c d : ℕ) → digit_of c ≡ some d → d < 10
digit_of-lt c d h = ground arith

abbrev pub event : String → String → Json
event kind raw =
    dict (field (codes "type") (str (codes kind)) (field (codes "raw") (str (codes raw)) end))

abbrev pub vote_raw : String
vote_raw = "@@@VOTEPASSED (map_restart 0)"

abbrev pub init_raw : String
init_raw = "InitGame: \\version\\TaystJK\\g_gametype\\6\\x\\1"

abbrev pub score_raw : String
score_raw = "  0:00 red:8  blue:5"

abbrev pub team_event : Json
team_event = dict (
    field (codes "type") (str (codes "team_change")) (
      field (codes "name") (str (codes "^1Kyle")) (
        field (codes "new_team") (str (codes "red")) (field (codes "slot") (str (codes "3")) end))))

abbrev pub parse_document : Text → Option Json
parse_document s =
    if same s (codes "VOTE")
    then some (event "raw_line" vote_raw)
    else if same s (codes "INIT")
    then some (event "init_game" init_raw)
    else if same s (codes "SCORE")
    then some (event "raw_line" score_raw)
    else if same s (codes "TEAM")
    then some team_event
    else if same s (codes "CONFIG")
    then some (dict (field (codes "announce_command") (str (codes " SAY ")) end))
    else none

instance abbrev pub ascii : Python
ascii = record {
  lower = map lower_ascii;
  upper = map upper_ascii;
  digit_value = digit_of;
  is_digit = between b'0' b'9';
  is_word = word_char;
  same_letter = λ c d. lower_ascii c == lower_ascii d;
  repr = λ v. codes "?";
  json_loads = parse_document;
  json_fails = λ s. none;
  shlex_split = λ s. some (s ∷ []);
  format_field = λ s values. raises value_error;
  decode_replace = map (λ b. if ltb b 128 then b else 0xfffd);
  lower_lem = λ s h. refl;
  is_digit_lem = λ c h. refl;
  digit_value_lem = digit_of_lem;
  digit_value_lt = digit_of-lt;
  decode_replace_lem = λ bytes. refl;
}

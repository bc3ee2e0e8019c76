-- ===== src/Python/Json.antt =====
-- The values that `json.loads` returns, and the interface of the Python runtime.

use jedi_academy_pterodactyl.Prelude.{
  if◌then◌else◌, All, ℤ, ℕ, ◌+◌, ◌-◌, ◌<◌, ◌≡◌, Bool, Option, some, List, map, ◌∷◌,
}
use jedi_academy_pterodactyl.Text.{Text, between}
use jedi_academy_pterodactyl.Outcome.{Outcome, Exception}

-- What the addons observe of a `float`: its truncation, its truth value and its printed form.
pub data Float : Type 0 where
  finite : ℤ → Bool → Text → Float
  infinite : Text → Float
  nan : Float

mutual
  pub data Json : Type 0 where
    null : Json
    bool : Bool → Json
    int : ℤ → Json
    float : Float → Json
    str : Text → Json
    list : Items → Json
    dict : Fields → Json

  pub data Items : Type 0 where
    nil : Items
    cons : Json → Items → Items

  pub data Fields : Type 0 where
    end : Fields
    field : Text → Json → Fields → Fields

-- The characters whose code points are below 128.
abbrev pub IsAscii : Text → Type 0
IsAscii = All (λ c. c < 128)

abbrev pub lower_ascii : ℕ → ℕ
lower_ascii c = if between b'A' b'Z' c then c + 32 else c

abbrev pub upper_ascii : ℕ → ℕ
upper_ascii c = if between b'a' b'z' c then c - 32 else c

pub record Python : Type 0 where
  -- `str.lower` and `str.upper`
  pub lower : Text → Text
  pub upper : Text → Text
  -- the value of a decimal digit, the characters that `\d` matches and `int` reads
  pub digit_value : ℕ → Option ℕ
  -- the characters that `str.isdigit` accepts
  pub is_digit : ℕ → Bool
  -- the characters that `\w` matches
  pub is_word : ℕ → Bool
  -- the two characters match one another under `re.IGNORECASE`
  pub same_letter : ℕ → ℕ → Bool
  -- `str` of a list or a dict
  pub repr : Json → Text
  -- `json.loads`, where `none` is a `JSONDecodeError`
  pub json_loads : Text → Option Json
  -- what `json.loads` raises otherwise, as a `ValueError` for a number of too many digits or a
  -- `RecursionError`
  pub json_fails : Text → Option Exception
  -- `shlex.split(text, posix=True)`, where `none` is a `ValueError`
  pub shlex_split : Text → Option (List Text)
  -- the replacement field of `str.format` that is more than a plain name and that begins a text:
  -- what it shows at the given values, and the text behind it
  pub format_field : Text → Fields → Outcome (Text × Text)
  -- `bytes.decode("utf-8", errors="replace")`
  pub decode_replace : List ℕ → Text
  pub lower_lem : (s : Text) → IsAscii s → lower s ≡ map lower_ascii s
  pub is_digit_lem : (c : ℕ) → c < 128 → is_digit c ≡ between b'0' b'9' c
  pub digit_value_lem : (d : ℕ) → d < 10 → digit_value (b'0' + d) ≡ some d
  pub digit_value_lt : (c d : ℕ) → digit_value c ≡ some d → d < 10
  -- the byte 0xff never stands in UTF-8
  pub decode_replace_lem :
      (bytes : List ℕ) → decode_replace (0xff ∷ bytes) ≡ 0xfffd ∷ decode_replace bytes

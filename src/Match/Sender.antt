-- ===== src/Match/Sender.antt =====
-- `_make_rcon_sender` of bundled-addons/defaults/match-announcer.py. Times are in microseconds.
use jedi_academy_pterodactyl.Match.Config.{allowed_announce_commands, home_dir}
use jedi_academy_pterodactyl.Prelude.{
  if◌then◌else◌, ℤ, ℕ, ◌+◌, ◌-◌, ◌≡◌, ◌⊎◌, Bool, true, false, Option, none, some, List, [], ◌∷◌,
  ◌++◌, Bool-cases, refl, inl, inr,
}
use jedi_academy_pterodactyl.Text.{Text, codes, is_one_of, strip, same}
use jedi_academy_pterodactyl.Config.{Environment}
use jedi_academy_pterodactyl.Outcome.{
  key_error, raises, type_error, os_error, attribute_error, Outcome, ◌>>=◌, returns, of_Holds,
  Holds-bind, anything,
}
use jedi_academy_pterodactyl.Python.Json.{int, null, Json, str, Python}
use jedi_academy_pterodactyl.Python.Dict.{get, Dict, get_or}
use jedi_academy_pterodactyl.Python.Convert.{truthy}
use jedi_academy_pterodactyl.Runtime.Env.{rcon_password, send_quietly, server_port_of}
use jedi_academy_pterodactyl.Rcon.Quote.{quote_rcon_arg}
use jedi_academy_pterodactyl.Rcon.Packet.{Exchange}
use jedi_academy_pterodactyl.Text.Equality.{same_iff}

-- What a send leaves behind: whether a datagram went out, how long it waited before, and
-- `last_send_at`.
pub record Delivery : Type 0 where
  pub delivered : Bool
  pub waited : ℕ
  pub last_send_at : ℕ

-- The clock before the pause and after the send.
pub record SendClock : Type 0 where
  pub now : ℕ
  pub ended : ℕ

abbrev pub line_delay : ℕ
line_delay = 30000

-- `LINE_DELAY_SECONDS - delta`, or no pause
unfoldable pub pause_before : ℕ → ℕ → ℕ
pause_before now last_send_at = last_send_at + line_delay - now

-- `command or config.get("announce_command") or "svsay"`, which must be a string
unfoldable pub wanted_command : Json → Dict → Outcome Text
unfolding truthy get_or
wanted_command (str (c ∷ cs)) config = returns (c ∷ cs)
wanted_command v config =
    if truthy v
    then raises attribute_error
    else elim (get_or config (codes "announce_command") null) [
      | str [] ↦ returns (codes "svsay")
      | str s ↦ returns s
      | w ↦ if truthy w then raises attribute_error else returns (codes "svsay")
    ]

-- The command, or `svsay` where it is not allowed.
unfoldable pub allowed_or_svsay : Text → Text
unfolding is_one_of
allowed_or_svsay c = if is_one_of c allowed_announce_commands then c else codes "svsay"

module _ ⦃py : Python⦄ where
  unfoldable pub rcon_text : Dict → Text → Json → Outcome Text
  unfolding wanted_command allowed_or_svsay quote_rcon_arg
  rcon_text config text_line command = wanted_command command config >>= λ wanted.
      returns (allowed_or_svsay (py.lower (strip wanted)) ++ (b' ' ∷ quote_rcon_arg text_line))

  -- `config["rcon_host"]` and `config["rcon_timeout_seconds"]` of a loaded configuration
  unfoldable pub host_and_timeout : Dict → Outcome (Text × ℤ)
  unfolding get
  host_and_timeout config = elim (get config (codes "rcon_host")) [
    | some (str host) ↦ elim (get config (codes "rcon_timeout_seconds")) [
      | some (int timeout) ↦ returns (host, timeout)
      | some v ↦ raises type_error
      | none ↦ raises key_error
    ]
    | some v ↦ raises type_error
    | none ↦ raises key_error
  ]

  -- An `OSError` of the socket is logged.
  delivery : SendClock → ℕ → Outcome (Option (List ℕ)) → Outcome Delivery
  unfolding pause_before
  delivery t last (returns reply) =
      returns
        (record { delivered = true; waited = pause_before t.now last; last_send_at = t.ended })
  delivery t last (raises os_error) =
      returns
        (record { delivered = false; waited = pause_before t.now last; last_send_at = t.ended })
  delivery t last (raises e) = raises e

  -- Without a password nothing is sent, and `last_send_at` stays.
  deliver_with :
      Exchange → Environment → Dict → SendClock → ℕ → Text → Json → Option Text → Outcome Delivery
  unfolding rcon_text host_and_timeout delivery
  deliver_with exchange env config t last text_line command none =
      returns (record { delivered = false; waited = 0; last_send_at = last })
  deliver_with exchange env config t last text_line command (some password) =
      server_port_of env (home_dir env) >>= λ port. rcon_text config text_line command >>= λ text.
      host_and_timeout config >>= λ address.
      delivery t last (send_quietly exchange address.0 port password address.1 text)

  unfoldable pub send_line :
      Exchange → Environment → Dict → SendClock → ℕ → Text → Json → Outcome Delivery
  unfolding deliver_with
  send_line exchange env config t last text_line command =
      rcon_password env (home_dir env) >>= λ password.
      deliver_with exchange env config t last text_line command password

  abbrev IsChat : Text → Text → Type 0
  IsChat text_line text =
      (text ≡ codes "svsay" ++ (b' ' ∷ quote_rcon_arg text_line))
      ⊎ (text ≡ codes "say" ++ (b' ' ∷ quote_rcon_arg text_line))

  allowed-IsChat :
      (text_line c : Text)
      → IsChat text_line (allowed_or_svsay c ++ (b' ' ∷ quote_rcon_arg text_line))
  unfolding allowed_or_svsay is_one_of
  allowed-IsChat text_line c = elim (Bool-cases (same c (codes "svsay"))) [
    | inl e ↦ inl (rw e (cc ((same_iff c (codes "svsay")).0 e)))
    | inr e ↦ elim (Bool-cases (same c (codes "say"))) [
      | inl f ↦ inr (rw (e, f) (cc ((same_iff c (codes "say")).0 f)))
      | inr f ↦ inl (rw (e, f) refl)
    ]
  ]

  -- Whatever the line and the configured commands, the text that is sent is one of the two chat
  -- commands with the line as its one quoted argument.
  pub rcon_text-chat :
      (config : Dict) (text_line : Text) (command : Json) {text : Text}
      → rcon_text config text_line command ≡ returns text
      → (text ≡ codes "svsay" ++ (b' ' ∷ quote_rcon_arg text_line))
        ⊎ (text ≡ codes "say" ++ (b' ' ∷ quote_rcon_arg text_line))
  unfolding rcon_text
  rcon_text-chat config text_line command h =
      of_Holds (IsChat text_line)
        (Holds-bind (λ _. Unit) (IsChat text_line) (wanted_command command config) _ (anything _)
          (λ wanted _. allowed-IsChat text_line (py.lower (strip wanted))))
        h

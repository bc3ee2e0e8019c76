-- ===== src/Announcer/Dispatch.antt =====
-- `dispatch_announcement` of bundled-addons/defaults/announcer.py.

use jedi_academy_pterodactyl.Prelude.{is_empty, Bool, false, not, ◌&&◌, Option, none, some, ◌++◌}
use jedi_academy_pterodactyl.Text.{Text, codes, contains}
use jedi_academy_pterodactyl.Config.{Environment}
use jedi_academy_pterodactyl.Outcome.{returns, raises, Outcome, ◌>>=◌, os_error}
use jedi_academy_pterodactyl.Announcer.Config.{AnnouncerConfig}
use jedi_academy_pterodactyl.Python.Json.{Python}
use jedi_academy_pterodactyl.Runtime.State.{
  effective_rcon_password, current_server_port, active_server_config_path,
}
use jedi_academy_pterodactyl.Rcon.Quote.{escape_command_argument}
use jedi_academy_pterodactyl.Rcon.Packet.{send_rcon_command, Exchange}

-- `"bad rconpassword" in response.lower()`
unfoldable pub rejected : ⦃py : Python⦄ → Text → Bool
unfolding contains
rejected ⦃py⦄ response =
    not (is_empty response) && contains (py.lower response) (codes "bad rconpassword")

-- An `OSError` of the socket is a failed announcement.
unfoldable pub sent_ok : ⦃py : Python⦄ → Outcome Text → Outcome Bool
sent_ok (returns response) = returns (not (rejected response))
sent_ok (raises os_error) = returns false
sent_ok (raises e) = raises e

module _ ⦃py : Python⦄ where
  unfoldable pub announce_line : AnnouncerConfig → Text → Text
  unfolding escape_command_argument
  announce_line config message =
      config.announce_command ++ (codes " \"" ++ (escape_command_argument message ++ codes "\""))

  send_with : Exchange → Environment → AnnouncerConfig → Text → Option Text → Outcome Bool
  send_with exchange env config message none = returns false
  send_with exchange env config message (some password) = current_server_port env >>= λ port.
      sent_ok (
        send_rcon_command exchange config.rcon_host port password config.rcon_timeout_seconds
          (announce_line config message))

  unfoldable pub dispatch_announcement :
      Exchange → Environment → AnnouncerConfig → Text → Outcome Bool
  unfolding send_with
  dispatch_announcement exchange env config message = active_server_config_path env >>= λ path.
      effective_rcon_password env path >>= λ password.
      send_with exchange env config message password

-- ===== src/Rcon/Quote.antt =====
-- The text of one RCON argument: `sanitize_text` and `quote_rcon_arg` of
-- bundled-addons/defaults/match-announcer.py, and `escape_command_argument` of announcer.py.

use jedi_academy_pterodactyl.Prelude.{keep, not, [], ◌∷◌, ◌++◌}
use jedi_academy_pterodactyl.Text.{Text, strip, replace, is_control}

-- `_CONTROL_CHAR_RE.sub("", value).strip()`
unfoldable pub sanitize_text : Text → Text
sanitize_text value = strip (keep (λ c. not (is_control c)) value)

unfoldable pub escape_command_argument : Text → Text
unfolding replace
escape_command_argument value =
    replace b'"' (b'\\' ∷ b'"' ∷ []) (replace b'\\' (b'\\' ∷ b'\\' ∷ []) value)

unfoldable pub quote_rcon_arg : Text → Text
unfolding replace
quote_rcon_arg value =
    let escaped = replace b'"' (b'\\' ∷ b'"' ∷ []) (replace b'\\' (b'\\' ∷ b'\\' ∷ []) value) in
    b'"' ∷ (escaped ++ (b'"' ∷ []))

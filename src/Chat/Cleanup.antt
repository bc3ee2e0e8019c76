-- ===== src/Chat/Cleanup.antt =====
-- What `cleanup_old_logs` of bundled-addons/defaults/chatlogger.py leaves.

use jedi_academy_pterodactyl.Prelude.{
  Bool-cases, ℕ, ◌+◌, ◌*◌, ◌≤◌, ◌<◌, ◌≡◌, refl, sym, ap, ◌∙◌, true, false, Option, some, List, [],
  ◌∷◌, arith,
}
use jedi_academy_pterodactyl.Text.{Text, same, is_one_of}
use jedi_academy_pterodactyl.Text.Equality.{same_iff}
use jedi_academy_pterodactyl.Chat.Writer.{cleanup_old_logs, Moment, is_stale}

today_kept :
    (keep_days : ℕ) (now : Moment)
    → 1 ≤ keep_days
    → now.micros < 86400 * 1000000
    → is_stale keep_days now now.date ≡ false
unfolding is_stale
today_kept keep_days now h k = ground (arith, more)
  where
    more : now.date * (86400 * 1000000) + now.micros < (now.date + keep_days) * (86400 * 1000000)
    more = omega (arith, h, k)

-- A cleanup that keeps at least one day removes no file of the current day, whatever else is in
-- the directory.
pub cleanup_old_logs-today :
    (strptime : Text → Option ℕ) (keep_days : ℕ) (now : Moment) (name : Text) (names : List Text)
    → 1 ≤ keep_days
    → now.micros < 86400 * 1000000
    → strptime name ≡ some now.date
    → is_one_of name (cleanup_old_logs strptime keep_days now names) ≡ is_one_of name names
unfolding cleanup_old_logs is_one_of
cleanup_old_logs-today strptime keep_days now name [] h k p = refl
cleanup_old_logs-today strptime keep_days now name (n ∷ ns) h k p = ground (
  arith,
  cleanup_old_logs-today strptime keep_days now name ns h k p,
  today_kept keep_days now h k,
  named,
  Bool-cases (same name n),
)
  where
    named : same name n ≡ true → strptime n ≡ some now.date
    named e = ap strptime (sym ((same_iff name n).0 e)) ∙ p

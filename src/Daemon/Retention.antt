-- ===== src/Daemon/Retention.antt =====
-- `cleanup_old_logs` of bundled-addons/examples/deprecated/40-chatlogger.py.
use jedi_academy_pterodactyl.Prelude.{
  ltb, leb, if◌then◌else◌, ℕ, ◌+◌, Bool, true, false, not, ◌&&◌, ◌||◌, Option, none, some, List,
  map,
}
use jedi_academy_pterodactyl.Text.{Text}
use jedi_academy_pterodactyl.Outcome.{Outcome, overflow_error, returns, raises}

-- The files `chat-….log` and `chat-….log.gz` of one stamp: whether the first stands there, and
-- whether the second does and holds the whole log.
pub record LogFiles : Type 0 where
  pub stamp : Text
  pub plain_log : Bool
  pub gz : Option Bool

-- How far a compression comes: not to the creation of the archive, not to its end, or to its end.
pub data Zipping : Type 0 where
  refused broken_off finished : Zipping

-- What the operating system does with the files of a stamp.
pub record Disk : Type 0 where
  pub unlinks : Text → Bool
  pub unlinks_gz : Text → Bool
  pub zipping : Text → Zipping

-- `KEEP_PLAIN_DAYS` and `KEEP_TOTAL_DAYS`
pub record Limits : Type 0 where
  pub plain_days : ℕ
  pub total_days : ℕ

-- `file_date < now.date() - timedelta(days=days)`; dates count from the first day of year 1.
unfoldable pub is_before : ℕ → ℕ → ℕ → Bool
is_before today days date = ltb (date + days) today

unfoldable pub unlink_plain : Disk → LogFiles → LogFiles
unlink_plain disk f = record f { plain_log = f.plain_log && not (disk.unlinks f.stamp) }

unfoldable pub zip_with : Disk → LogFiles → Zipping → LogFiles
unfolding unlink_plain
zip_with disk f refused = f
zip_with disk f broken_off = record f { gz = some false }
zip_with disk f finished = unlink_plain disk (record f { gz = some true })

-- An archive that stands there counts as the log's.
unfoldable pub compress : Disk → LogFiles → LogFiles
unfolding zip_with unlink_plain
compress disk f = elim f.gz [
  | some whole ↦ unlink_plain disk f
  | none ↦ zip_with disk f (disk.zipping f.stamp)
]

-- The first loop, for one file `chat-….log`.
unfoldable pub clean_plain : Limits → ℕ → Disk → ℕ → LogFiles → LogFiles
unfolding is_before unlink_plain compress
clean_plain limits today disk date f =
    if not f.plain_log
    then f
    else if is_before today limits.total_days date
    then unlink_plain disk f
    else if not (is_before today limits.plain_days date)
    then f
    else compress disk f

-- The second loop, for one file `chat-….log.gz`.
unfoldable pub clean_gz : Limits → ℕ → Disk → ℕ → LogFiles → LogFiles
unfolding is_before
clean_gz limits today disk date f =
    if is_before today limits.total_days date && disk.unlinks_gz f.stamp
    then record f { gz = none }
    else f

-- A stamp that is no date keeps its files.
unfoldable pub clean_files : (Text → Option ℕ) → Limits → ℕ → Disk → LogFiles → LogFiles
unfolding clean_plain clean_gz
clean_files strptime limits today disk f = elim (strptime f.stamp) [
  | none ↦ f
  | some date ↦ clean_gz limits today disk date (clean_plain limits today disk date f)
]

-- A date before the first day of year 1 is an `OverflowError`. Each step of the two loops touches
-- the files of one stamp only, so their order is no matter.
unfoldable pub cleanup_log_files :
    (Text → Option ℕ) → Limits → ℕ → Disk → List LogFiles → Outcome (List LogFiles)
unfolding clean_files
cleanup_log_files strptime limits today disk files =
    if leb today limits.plain_days || leb today limits.total_days
    then raises overflow_error
    else returns (map (clean_files strptime limits today disk) files)

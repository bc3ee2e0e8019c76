-- ===== src/Daemon/Kept.antt =====
-- What a cleanup of bundled-addons/examples/deprecated/40-chatlogger.py keeps and what it removes.
use mathlib.Core.List.{map-append}
use jedi_academy_pterodactyl.Prelude.{
  ℕ, ◌≡◌, refl, Bool, true, false, ◌||◌, Option, none, some, arith, ◌&&◌, ◌<◌, List, ◌∷◌, map, ◌++◌,
}
use jedi_academy_pterodactyl.Text.{Text}
use jedi_academy_pterodactyl.Daemon.Retention.{
  compress, is_before, broken_off, Disk, Limits, LogFiles, refused, clean_gz, clean_files,
  clean_plain, finished, unlink_plain, Zipping, zip_with, cleanup_log_files,
}
use jedi_academy_pterodactyl.Outcome.{returns}

-- The log of the stamp can still be read in whole.
unfoldable pub is_readable : LogFiles → Bool
is_readable f = f.plain_log || elim f.gz [ none ↦ false | some whole ↦ whole ]

-- The compression did not break off.
abbrev goes_through : Zipping → Bool
goes_through broken_off = false
goes_through z = true

-- An archive holds the whole log, also one that a compression is going to make.
unfoldable pub is_sound : Disk → LogFiles → Bool
is_sound disk f = elim f.gz [ some whole ↦ whole | none ↦ goes_through (disk.zipping f.stamp) ]

-- A log that is not past the total limit.
abbrev IsRecent : (Text → Option ℕ) → Limits → ℕ → LogFiles → Type 0
IsRecent strptime limits today f =
    (date : ℕ) → strptime f.stamp ≡ some date → is_before today limits.total_days date ≡ false

abbrev entry : Text → Bool → Option Bool → LogFiles
entry stamp plain_log gz = record { stamp = stamp; plain_log = plain_log; gz = gz }

zip_with-is_readable :
    (disk : Disk) (s : Text) (z : Zipping)
    → goes_through z ≡ true
    → is_readable (zip_with disk (entry s true none) z) ≡ true
unfolding zip_with is_readable unlink_plain
zip_with-is_readable disk s refused h = refl
zip_with-is_readable disk s broken_off h = cc
zip_with-is_readable disk s finished h = ground arith

compress-is_readable :
    (disk : Disk) (s : Text) (g : Option Bool)
    → is_sound disk (entry s true g) ≡ true
    → is_readable (compress disk (entry s true g)) ≡ true
unfolding compress is_readable is_sound unlink_plain
compress-is_readable disk s (some whole) h = ground (arith, h)
compress-is_readable disk s none h = zip_with-is_readable disk s (disk.zipping s) h

clean_plain-is_readable :
    (limits : Limits) (today : ℕ) (disk : Disk) (date : ℕ) (s : Text) (p : Bool) (g : Option Bool)
    → is_before today limits.total_days date ≡ false
    → is_sound disk (entry s p g) ≡ true
    → is_readable (entry s p g) ≡ true
    → is_readable (clean_plain limits today disk date (entry s p g)) ≡ true
unfolding clean_plain
clean_plain-is_readable limits today disk date s false g recent sound h = h
clean_plain-is_readable limits today disk date s true g recent sound h =
    ground (arith, recent, compress-is_readable disk s g sound, h)

clean_files-is_readable :
    (strptime : Text → Option ℕ) (limits : Limits) (today : ℕ) (disk : Disk) (f : LogFiles)
    → IsRecent strptime limits today f
    → is_sound disk f ≡ true
    → is_readable f ≡ true
    → is_readable (clean_files strptime limits today disk f) ≡ true
unfolding clean_files clean_gz
clean_files-is_readable strptime limits today disk f recent sound h = branch (strptime f.stamp) refl
  where
    branch :
        (o : Option ℕ)
        → strptime f.stamp ≡ o
        → is_readable (elim o [
          | none ↦ f
          | some date ↦ clean_gz limits today disk date (clean_plain limits today disk date f)
        ])
          ≡ true
    branch none e = h
    branch (some date) e = ground (
      arith,
      recent date e,
      clean_plain-is_readable limits today disk date f.stamp f.plain_log f.gz (recent date e) sound
          h,
    )

clean_files-stamp :
    (strptime : Text → Option ℕ) (limits : Limits) (today : ℕ) (disk : Disk) (f : LogFiles)
    → (clean_files strptime limits today disk f).stamp ≡ f.stamp
unfolding clean_files clean_gz clean_plain unlink_plain compress zip_with
clean_files-stamp strptime limits today disk f = ground arith

-- A cleanup on a day past both limits returns, and it loses no log within the total limit, whatever
-- else is in the directory: a log that can be read in whole before, plain or from its archive, can
-- be read in whole after, if its archive, where there is one, holds the whole log and its
-- compression does not break off.
pub cleanup_log_files-is_readable :
    (strptime : Text → Option ℕ) (limits : Limits) (today : ℕ) (disk : Disk)
    (before : List LogFiles) (f : LogFiles) (after : List LogFiles)
    → limits.plain_days < today
    → limits.total_days < today
    → ((date : ℕ) → strptime f.stamp ≡ some date → is_before today limits.total_days date ≡ false)
    → is_sound disk f ≡ true
    → is_readable f ≡ true
    → (before' : List LogFiles) × (f' : LogFiles) × (after' : List LogFiles) × (cleanup_log_files
          strptime limits today disk
          (before ++ (f ∷ after))
        ≡ returns (before' ++ (f' ∷ after')))
      × (f'.stamp ≡ f.stamp)
      × (is_readable f' ≡ true)
unfolding cleanup_log_files
cleanup_log_files-is_readable strptime limits today disk before f after plain_past total_past recent
      sound h =
    (
      map (clean_files strptime limits today disk) before,
      clean_files strptime limits today disk f,
      map (clean_files strptime limits today disk) after,
      rw map-append (ground (arith, plain_past, total_past)),
      clean_files-stamp strptime limits today disk f,
      clean_files-is_readable strptime limits today disk f recent sound h,
    )

clean_old :
    (limits : Limits) (today : ℕ) (disk : Disk) (date : ℕ) (s : Text) (p : Bool) (g : Option Bool)
    → is_before today limits.total_days date ≡ true
    → (disk.unlinks s && disk.unlinks_gz s) ≡ true
    → clean_gz limits today disk date (clean_plain limits today disk date (entry s p g))
      ≡ entry s false none
unfolding clean_gz clean_plain unlink_plain
clean_old limits today disk date s false g old removes = ground (arith, old, removes)
clean_old limits today disk date s true g old removes = ground (arith, old, removes)

-- A cleanup whose removals succeed leaves no file, plain or compressed, that is past the total
-- limit.
pub clean_files-old :
    (strptime : Text → Option ℕ) (limits : Limits) (today : ℕ) (disk : Disk) (f : LogFiles)
    (date : ℕ)
    → strptime f.stamp ≡ some date
    → is_before today limits.total_days date ≡ true
    → (disk.unlinks f.stamp && disk.unlinks_gz f.stamp) ≡ true
    → clean_files strptime limits today disk f ≡ entry f.stamp false none
unfolding clean_files
clean_files-old strptime limits today disk f date dated old removes =
    rw (clean_files, dated) (clean_old limits today disk date f.stamp f.plain_log f.gz old removes)

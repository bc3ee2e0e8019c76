-- ===== src/Chat/Daily.antt =====
-- Where `ChatWriter` of bundled-addons/defaults/chatlogger.py puts its lines.

use mathlib.Core.Path.{subst}
use mathlib.Core.List.{append_assoc, append-nil}
use jedi_academy_pterodactyl.Prelude.{
  leb, ◌≡◌, some, List, [], ◌∷◌, ◌++◌, Bool-cases, is_some, refl, sym, ap, inl, inr, true, false,
  ◌&&◌, Option, none, arith, ◌∙◌,
}
use jedi_academy_pterodactyl.Text.{Text, same}
use jedi_academy_pterodactyl.Outcome.{
  raises, Exception, Holds-weaken, Outcome, Holds, ◌>>=◌, returns, Holds-bind, Holds-if, of_Holds,
}
use jedi_academy_pterodactyl.Chat.Writer.{
  ChatDisk, is_current, appended, Moment, FileOp, maybe_roll, ChatWriter, clean_daily,
  append_entry_to, format_entry, plain_log_name, write, close_op, new_writer, cleaned_on,
}
use jedi_academy_pterodactyl.Chat.Entry.{ChatEntry}
use jedi_academy_pterodactyl.Text.Equality.{same_iff}

-- The lines that were written, with the names of their files, in order.
pub lines_of : List FileOp → List (Text × Text)
lines_of [] = []
lines_of (appended name l ∷ ops) = lines_of ops ++ ((name, l) ∷ [])
lines_of (o ∷ ops) = lines_of ops

unfoldable pub write_all : ChatDisk → List (Moment × ChatEntry) → ChatWriter → Outcome ChatWriter
unfolding write
write_all disk [] w = returns w
write_all disk ((now, e) ∷ rest) w = write disk now e w >>= λ w'. write_all disk rest w'

-- Each entry as a line of the file of its day.
pub by_day : List (Moment × ChatEntry) → List (Text × Text)
unfolding format_entry
by_day [] = []
by_day ((now, e) ∷ rest) = (plain_log_name now.date_key, format_entry now e) ∷ by_day rest

-- The open file is that of the date.
abbrev IsDated : ChatWriter → Type 0
IsDated w =
    (name : Text) → w.fp ≡ some name → (d : Text) × (w.date ≡ some d) × (name ≡ plain_log_name d)

abbrev Wrote : Moment → ChatEntry → ChatWriter → ChatWriter → Type 0
Wrote now e w w' =
    IsDated w'
    × (lines_of w'.ops ≡ lines_of w.ops ++ ((plain_log_name now.date_key, format_entry now e) ∷ []))

-- After `_maybe_roll` the file of the day is open, and no line was written.
abbrev Rolled : Moment → ChatWriter → ChatWriter → Type 0
Rolled now w w' =
    (w'.fp ≡ some (plain_log_name now.date_key))
    × (w'.date ≡ some now.date_key)
    × (lines_of w'.ops ≡ lines_of w.ops)

current_fields :
    (key : Text) (date fp : Option Text)
    → ((elim date [ none ↦ false | some d ↦ same key d ]) && is_some fp) ≡ true
    → (date ≡ some key) × (name : Text) × (fp ≡ some name)
current_fields key none fp h = cc h
current_fields key (some d) none h = ground (arith, h)
current_fields key (some d) (some name) h =
    (ap some (sym ((same_iff key d).0 (ground (arith, h)))), name, refl)

lines_of-close_op :
    (fp : Option Text) (ops : List FileOp) → lines_of (close_op fp ops) ≡ lines_of ops
unfolding lines_of
lines_of-close_op none ops = refl
lines_of-close_op (some name) ops = refl

current-Rolled :
    (now : Moment) (w : ChatWriter) → IsDated w → is_current now.date_key w ≡ true → Rolled now w w
unfolding is_current
current-Rolled now w h e =
    let c = current_fields now.date_key w.date w.fp e in
    let d = h c.1 c.2 in (cc (c.2, d.1, d.2, c.0), c.0, refl)

roll-Rolled :
    (disk : ChatDisk) (now : Moment) (w : ChatWriter)
    → IsDated w
    → Holds (Rolled now w) (maybe_roll disk now w)
unfolding maybe_roll lines_of
roll-Rolled disk now w h = elim (Bool-cases (is_current now.date_key w)) [
  | inl e ↦ rw e (current-Rolled now w h e)
  | inr e ↦ rw e (
      Holds-if (Rolled now w) _ _ (disk.opens (plain_log_name now.date_key))
        (refl, refl, lines_of-close_op w.fp w.ops) tt)
]

abbrev SameFile : ChatWriter → ChatWriter → Type 0
SameFile w w' = (w'.fp ≡ w.fp) × (w'.date ≡ w.date) × (lines_of w'.ops ≡ lines_of w.ops)

clean_daily-SameFile :
    (disk : ChatDisk) (now : Moment) (w : ChatWriter) → Holds (SameFile w) (clean_daily disk now w)
unfolding clean_daily lines_of
clean_daily-SameFile disk now w =
    Holds-if (SameFile w) _ _ (cleaned_on now.date w.last_cleanup) (refl, refl, refl)
      (Holds-if (SameFile w) _ _ (leb now.date disk.keep_days) tt (refl, refl, refl))

append-Wrote :
    (disk : ChatDisk) (now : Moment) (e : ChatEntry) (w w' : ChatWriter) (fp : Option Text)
    → fp ≡ some (plain_log_name now.date_key)
    → Rolled now w w'
    → Holds (Wrote now e w) (append_entry_to disk fp now e w')
unfolding append_entry_to lines_of
append-Wrote disk now e w w' none p r = cc p
append-Wrote disk now e w w' (some file) p r = branch (disk.write_fails file (format_entry now e))
  where
    appended_to : ChatWriter
    appended_to = record w' { ops = appended file (format_entry now e) ∷ w'.ops }

    cleaned : Holds (Wrote now e w) (clean_daily disk now appended_to)
    cleaned =
        Holds-weaken (SameFile appended_to) (Wrote now e w) (clean_daily disk now appended_to)
          (clean_daily-SameFile disk now appended_to)
          (λ w'' kept.
            ((λ name x. (now.date_key, kept.1 ∙ r.1, cc (x, kept.0, r.0))), kept.2 ∙ cc (p, r.2)))

    branch :
        (o : Option Exception)
        → Holds
            (Wrote now e w)
            (elim o [ some x ↦ raises x | none ↦ clean_daily disk now appended_to ])
    branch (some x) = tt
    branch none = cleaned

write-Wrote :
    (disk : ChatDisk) (now : Moment) (e : ChatEntry) (w : ChatWriter)
    → IsDated w
    → Holds (Wrote now e w) (write disk now e w)
unfolding write
write-Wrote disk now e w h =
    Holds-bind (Rolled now w) (Wrote now e w) (maybe_roll disk now w) _ (roll-Rolled disk now w h)
      (λ w' r. append-Wrote disk now e w w' w'.fp r.0 r)

write_all-lines :
    (disk : ChatDisk) (entries : List (Moment × ChatEntry)) (w : ChatWriter)
    → IsDated w
    → Holds (λ w'. lines_of w'.ops ≡ lines_of w.ops ++ by_day entries) (write_all disk entries w)
unfolding write_all by_day
write_all-lines disk [] w h = sym (append-nil (lines_of w.ops))
write_all-lines disk ((now, e) ∷ rest) w h =
    Holds-bind (Wrote now e w) (λ w'. lines_of w'.ops ≡ lines_of w.ops ++ by_day ((now, e) ∷ rest))
      (write disk now e w) _ (write-Wrote disk now e w h)
      (λ w' r.
        subst (λ ls. Holds (λ w''. lines_of w''.ops ≡ ls) (write_all disk rest w'))
          (ap (λ ls. ls ++ by_day rest) r.1 ∙ append_assoc (lines_of w.ops) _ (by_day rest))
          (write_all-lines disk rest w' r.0))

-- Whatever entries a new writer is given, and whatever their days: where no exception of an opening,
-- a write or a cleanup ends the run, the lines that it wrote are one formatted line for each entry,
-- in order, each in the file of its own day.
pub write_all-by_day :
    (disk : ChatDisk) (entries : List (Moment × ChatEntry)) {w : ChatWriter}
    → write_all disk entries new_writer ≡ returns w
    → lines_of w.ops ≡ by_day entries
unfolding lines_of by_day
write_all-by_day disk entries ran =
    of_Holds (λ w. lines_of w.ops ≡ by_day entries)
      (write_all-lines disk entries new_writer (λ name x. cc x)) ran

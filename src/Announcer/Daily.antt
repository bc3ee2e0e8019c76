-- ===== src/Announcer/Daily.antt =====
-- The daily entries of `run_scheduled_loop` in bundled-addons/defaults/announcer.py, over the rounds
-- of one day.

use mathlib.Core.Path.{subst}
use native.Mathlib.Decide.{ℕ_discrete}
use native.Mathlib.Nat.{zero-add, le_trans}
use jedi_academy_pterodactyl.Prelude.{
  ◌==◌, if◌then◌else◌, ℕ, zero, suc, ◌+◌, ◌≤◌, ◌≡◌, refl, ◌≢◌, Bool, true, false, ◌&&◌, Option,
  none, some, List, [], ◌∷◌, arith, ap, ◌<◌, ◌⊎◌, inl, inr, ltb, leb, Bool-cases, All, ◌∙◌, not,
}
use jedi_academy_pterodactyl.Text.{Text}
use jedi_academy_pterodactyl.Announcer.Loops.{
  Announced, drop_stale, is_daily, fired_on, set_index, at_index, ByIndex, Pass, entry_at,
  mark_fired, announce_entry, fire_pass, fire_slot, reconcile, send_message, Surroundings,
  fire_periodic, Scheduler, reloading_rounds, fire_daily,
}
use jedi_academy_pterodactyl.Announcer.Schedule.{Entry, every_seconds, Slot, time_of_day}
use jedi_academy_pterodactyl.Outcome.{Holds-bind, Holds, returns, of_Holds}
use jedi_academy_pterodactyl.Announcer.Clock.{slot_due_now, TimeOfDay, today_target}

-- How many of the announcements of an entry went out.
pub oks : ℕ → List Announced → ℕ
oks i [] = 0
oks i (a ∷ log) = let rest = oks i log in if a.index == i && a.ok then suc rest else rest

pub at_index-set_index :
    (i j v : ℕ) (d : ByIndex)
    → at_index j (set_index i v d) ≡ (if i == j then some v else at_index j d)
unfolding at_index set_index
at_index-set_index i j v [] = refl
at_index-set_index i j v ((k, w) ∷ d) = ground (arith, at_index-set_index i j v d)

pub at_index-drop_stale :
    (valid : ℕ → Bool) (i : ℕ) (d : ByIndex)
    → at_index i (drop_stale valid d) ≡ (if valid i then at_index i d else none)
unfolding at_index drop_stale
at_index-drop_stale valid i [] = ground arith
at_index-drop_stale valid i ((j, w) ∷ d) = ground (arith, at_index-drop_stale valid i d, ap valid)

-- From index `k` on, an entry with index `i` is daily.
abbrev DailyFrom : ℕ → ℕ → List Entry → Type 0
DailyFrom i k [] = Unit
DailyFrom i k (e ∷ es) = (k ≡ i → is_daily (some e) ≡ true) × DailyFrom i (suc k) es

DailyFrom-past : (i k : ℕ) (es : List Entry) → i < k → DailyFrom i k es
DailyFrom-past i k [] h = tt
DailyFrom-past i k (e ∷ es) h =
    (λ x. absurd (omega (arith, x)), DailyFrom-past i (suc k) es (omega arith))

DailyFrom-of_entry_at :
    (n k : ℕ) (es : List Entry) → is_daily (entry_at n es) ≡ true → DailyFrom (k + n) k es
DailyFrom-of_entry_at n k [] h = tt
DailyFrom-of_entry_at zero k (e ∷ es) h = (λ _. h, DailyFrom-past (k + 0) (suc k) es (omega arith))
DailyFrom-of_entry_at (suc n) k (e ∷ es) h = (
  λ x. absurd (omega (arith, x)),
  subst (λ i. DailyFrom i (suc k) es) shifted (DailyFrom-of_entry_at n (suc k) es h),
)
  where
    shifted : suc k + n ≡ k + suc n
    shifted = omega arith

abbrev one_if : Bool → ℕ
one_if true = 1
one_if false = 0

-- What went out today is marked.
abbrev Marked : ℕ → ℕ → Pass → Type 0
Marked i d p = oks i p.log ≤ one_if (fired_on i d p.scheduler.last_fired)

mark_fired-ne :
    (i j d : ℕ) (date : Option ℕ) (message : Text) (p : Pass) (ok : Bool)
    → j ≢ i
    → Marked i d p
    → Marked i d (mark_fired j date message p ok)
unfolding mark_fired oks
mark_fired-ne i j d none message p ok n h = ground arith
mark_fired-ne i j d (some date) message p ok n h =
    ground (arith, at_index-set_index j i date p.scheduler.last_fired)

mark_fired_self :
    (i d : ℕ) (message : Text) (p : Pass) (ok : Bool)
    → fired_on i d p.scheduler.last_fired ≡ false
    → Marked i d p
    → Marked i d (mark_fired i (some d) message p ok)
unfolding mark_fired oks
mark_fired_self i d message p ok f h =
    ground (arith, at_index-set_index i i d p.scheduler.last_fired)

send_message-Marked :
    (i j d : ℕ) (w : Surroundings) (date : Option ℕ) (choice : Option Text × ℕ) (p : Pass)
    → ((message : Text) (ok : Bool)
        → Marked i d (
            mark_fired j date message
              (record p { scheduler = record (p.scheduler) { cursor = choice.1 } })
              ok))
    → Marked i d p
    → Holds (Marked i d) (send_message w j date choice p)
unfolding send_message
send_message-Marked i j d w date (none, cursor) p marks h = h
send_message-Marked i j d w date (some message, cursor) p marks h =
    Holds-bind (λ _. Unit) (Marked i d) (w.dispatch j message) _ (ground arith)
      (λ ok _. marks message ok)

announce-Marked :
    (i j d : ℕ) (w : Surroundings) (date : Option ℕ) (e : Entry) (p : Pass)
    → ((j ≢ i) ⊎ ((j ≡ i) × (date ≡ some d) × (fired_on i d p.scheduler.last_fired ≡ false)))
    → Marked i d p
    → Holds (Marked i d) (announce_entry w j date e p)
unfolding announce_entry
announce-Marked i j d w date e p (inl n) h =
    send_message-Marked i j d w date _ p (λ message ok. mark_fired-ne i j d date message _ ok n h) h
announce-Marked i j d w date e p (inr (same_index, today, unfired)) h =
    send_message-Marked i j d w date _ p
      (λ message ok. rw (same_index, today) (mark_fired_self i d message _ ok unfired h)) h

-- The entry at index `j`, if it is due, is announced with the date of its clock reading.
fire_daily-Marked :
    (i j d : ℕ) (w : Surroundings) (t : TimeOfDay) (e : Entry) (p : Pass)
    → w.today ≡ d
    → (w.clock i).date ≡ d
    → Marked i d p
    → Holds (Marked i d) (fire_daily w j t e p)
unfolding fire_daily slot_due_now
fire_daily-Marked i j d w t e p today c h =
    elim (Bool-cases (
      not (fired_on j w.today p.scheduler.last_fired) && leb (today_target t) (w.clock j).micros)) [
        | inl due ↦ rw due (announce-Marked i j d w (some (w.clock j).date) e p (which due) h)
        | inr early ↦ rw early h
      ]
  where
    which :
        (not (fired_on j w.today p.scheduler.last_fired) && leb (today_target t) (w.clock j).micros)
          ≡ true
        → (j ≢ i)
          ⊎ ((j ≡ i)
              × (some (w.clock j).date ≡ some d)
              × (fired_on i d p.scheduler.last_fired ≡ false))
    which due = elim (ℕ_discrete j i) [
      | no n ↦ inl n
      | yes x ↦ inr (x, ap (λ k. some (w.clock k).date) x ∙ ap some c, unmarked x due)
    ]
      where
        unmarked :
            j ≡ i
            → (not (fired_on j w.today p.scheduler.last_fired)
                && leb (today_target t) (w.clock j).micros)
              ≡ true
            → fired_on i d p.scheduler.last_fired ≡ false
        unmarked x due = ground (arith, today, x)

fire_periodic-Marked :
    (i j d n : ℕ) (w : Surroundings) (e : Entry) (deadline : Option ℕ) (p : Pass)
    → j ≢ i
    → Marked i d p
    → Holds (Marked i d) (fire_periodic w j n e deadline p)
unfolding fire_periodic
fire_periodic-Marked i j d n w e none p x h = h
fire_periodic-Marked i j d n w e (some deadline) p x h =
    elim (Bool-cases (ltb w.now_monotonic deadline)) [
      | inl early ↦ rw early h
      | inr due ↦ rw due (announce-Marked i j d w none e _ (inl x) h)
    ]

fire_slot-Marked :
    (i j d : ℕ) (w : Surroundings) (slot : Slot) (e : Entry) (p : Pass)
    → w.today ≡ d
    → (w.clock i).date ≡ d
    → (j ≡ i → is_daily (some (record { slot = slot; message = e.message })) ≡ true)
    → Marked i d p
    → Holds (Marked i d) (fire_slot w j slot e p)
unfolding fire_slot
fire_slot-Marked i j d w (time_of_day t) e p today c daily h =
    fire_daily-Marked i j d w t e p today c h
fire_slot-Marked i j d w (every_seconds n) e p today c daily h =
    fire_periodic-Marked i j d n w e _ p (λ x. cc (daily x)) h

fire_pass-Marked :
    (i j d : ℕ) (w : Surroundings) (es : List Entry) (p : Pass)
    → w.today ≡ d
    → (w.clock i).date ≡ d
    → DailyFrom i j es
    → Marked i d p
    → Holds (Marked i d) (fire_pass w j es p)
unfolding fire_pass
fire_pass-Marked i j d w [] p t c daily h = h
fire_pass-Marked i j d w (e ∷ es) p t c daily h =
    Holds-bind (Marked i d) (Marked i d) (fire_slot w j e.slot e p) _
      (fire_slot-Marked i j d w e.slot e p t c daily.0 h)
      (λ p'. fire_pass-Marked i (suc j) d w es p' t c daily.1)

reconcile-Marked :
    (i d now : ℕ) (es : List Entry) (p : Pass)
    → is_daily (entry_at i es) ≡ true
    → Marked i d p
    → Marked i d (record p { scheduler = reconcile now es p.scheduler })
unfolding reconcile
reconcile-Marked i d now es p daily h =
    ground
      (arith, daily, at_index-drop_stale (λ j. is_daily (entry_at j es)) i p.scheduler.last_fired)

-- Rounds that all find the same date, in the sleep and at the entry's clock, and a daily entry at the
-- index in the schedule that they load.
abbrev pub SameDay : ℕ → ℕ → List (Surroundings × List Entry) → Type 0
SameDay i d =
    All (λ (w, es). (w.today ≡ d) × ((w.clock i).date ≡ d) × (is_daily (entry_at i es) ≡ true))

rounds-Marked :
    (i d : ℕ) (loads : List (Surroundings × List Entry)) (p : Pass)
    → SameDay i d loads
    → Marked i d p
    → Holds (Marked i d) (reloading_rounds loads p)
unfolding reloading_rounds
rounds-Marked i d [] p same_day h = h
rounds-Marked i d ((w, es) ∷ loads) p ((today, date, daily), later) h =
    Holds-bind (Marked i d) (Marked i d) (fire_pass w 0 es _) _
      (fire_pass-Marked i 0 d w es _ today date
        (subst (λ n. DailyFrom n 0 es) (zero-add i) (DailyFrom-of_entry_at i 0 es daily))
        (reconcile-Marked i d w.reconciled es p daily h))
      (λ p'. rounds-Marked i d loads p' later)

one_if-le : (b : Bool) → one_if b ≤ 1
one_if-le true = omega arith
one_if-le false = omega arith

-- However many rounds the scheduler makes while it reads the same date, and whatever the dispatch
-- returns, if it raises nothing, also if the configuration is loaded anew and changes in each round:
-- if every loaded schedule has a daily entry at an index, then the entry of that index goes out at
-- most once.
pub daily_once :
    (i d : ℕ) (loads : List (Surroundings × List Entry)) (s : Scheduler) {p : Pass}
    → SameDay i d loads
    → reloading_rounds loads (record { scheduler = s; log = [] }) ≡ returns p
    → oks i p.log ≤ 1
unfolding oks
daily_once i d loads s {p} same_day ran =
    le_trans
      (of_Holds (Marked i d)
        (rounds-Marked i d loads (record { scheduler = s; log = [] }) same_day nothing) ran)
      (one_if-le (fired_on i d p.scheduler.last_fired))
  where
    nothing : oks i [] ≤ one_if (fired_on i d s.last_fired)
    nothing = omega arith

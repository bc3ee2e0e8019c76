-- ===== src/Announcer/Loops.antt =====
-- `run_scheduled_loop` of bundled-addons/defaults/announcer.py, one round at a time. Monotonic and
-- wall-clock times are in microseconds.
use Prim.Native.Nat.{min}
use jedi_academy_pterodactyl.Prelude.{
  ltb, ◌==◌, if◌then◌else◌, ℕ, zero, suc, ◌+◌, ◌-◌, ◌*◌, Bool, true, false, Option, none, some,
  List, [], ◌∷◌,
}
use jedi_academy_pterodactyl.Text.{Text}
use jedi_academy_pterodactyl.Outcome.{returns, ◌>>=◌, Outcome}
use jedi_academy_pterodactyl.Announcer.Rotation.{next_message}
use jedi_academy_pterodactyl.Announcer.Clock.{Now, TimeOfDay, slot_due_now, micros_until_slot}
use jedi_academy_pterodactyl.Announcer.Schedule.{time_of_day, Slot, every_seconds, Entry}

-- A dict from the index of an entry.
abbrev pub ByIndex : Type 0
ByIndex = List (ℕ × ℕ)

unfoldable pub at_index : ℕ → ByIndex → Option ℕ
at_index i [] = none
at_index i ((j, v) ∷ d) = if j == i then some v else at_index i d

unfoldable pub set_index : ℕ → ℕ → ByIndex → ByIndex
set_index i v [] = (i, v) ∷ []
set_index i v ((j, w) ∷ d) = if j == i then (j, v) ∷ d else (j, w) ∷ set_index i v d

abbrev pub entry_at : ℕ → List Entry → Option Entry
entry_at i [] = none
entry_at zero (e ∷ es) = some e
entry_at (suc i) (e ∷ es) = entry_at i es

abbrev pub is_every : Option Entry → Bool
is_every none = false
is_every (some e) = elim e.slot [ time_of_day t ↦ false | every_seconds n ↦ true ]

abbrev pub is_daily : Option Entry → Bool
is_daily none = false
is_daily (some e) = elim e.slot [ time_of_day t ↦ true | every_seconds n ↦ false ]

abbrev pub second : ℕ
second = 1000000

abbrev pub missing_every : Slot → ℕ → ℕ → ByIndex → ByIndex
missing_every (time_of_day t) i now deadlines = deadlines
missing_every (every_seconds n) i now deadlines = elim (at_index i deadlines) [
  | some d ↦ deadlines
  | none ↦ set_index i (now + n * second) deadlines
]

-- A deadline for every periodic entry that has none yet; `i` is the index of the first entry.
unfoldable pub add_missing : ℕ → ℕ → List Entry → ByIndex → ByIndex
add_missing now i [] deadlines = deadlines
add_missing now i (e ∷ es) deadlines =
    add_missing now (suc i) es (missing_every e.slot i now deadlines)

-- The keys that pass the test stay.
unfoldable pub drop_stale : (ℕ → Bool) → ByIndex → ByIndex
drop_stale valid [] = []
drop_stale valid ((i, v) ∷ d) =
    let rest = drop_stale valid d in if valid i then (i, v) ∷ rest else rest

pub record Scheduler : Type 0 where
  pub cursor : ℕ
  pub deadlines : ByIndex
  pub last_fired : ByIndex

-- The state before the first round: a deadline for each periodic entry of the first schedule.
unfoldable pub new_scheduler : ℕ → List Entry → Scheduler
unfolding add_missing
new_scheduler base schedule = record {
  cursor = 0;
  deadlines = add_missing base 0 schedule [];
  last_fired = [];
}

-- The deadlines and the fired dates brought in line with the schedule.
unfoldable pub reconcile : ℕ → List Entry → Scheduler → Scheduler
reconcile now schedule s = record s {
  deadlines =
      drop_stale (λ i. is_every (entry_at i schedule)) (add_missing now 0 schedule s.deadlines);
  last_fired = drop_stale (λ i. is_daily (entry_at i schedule)) s.last_fired;
}

-- `last_fired_date.get(index) == today`
abbrev pub fired_on : ℕ → ℕ → ByIndex → Bool
fired_on i today last_fired = elim (at_index i last_fired) [ none ↦ false | some d ↦ d == today ]

-- How long until an entry is due.
unfoldable pub wakeup : ℕ → Now → ℕ → Scheduler → ℕ → Entry → ℕ
wakeup today now now_monotonic s i e = elim e.slot [
  | time_of_day t ↦ micros_until_slot now t (fired_on i today s.last_fired)
  | every_seconds n ↦ elim (at_index i s.deadlines) [
    | none ↦ 0
    | some deadline ↦ deadline - now_monotonic
  ]
]

abbrev pub max_sleep : ℕ
max_sleep = 60 * second

-- The least wakeup, and at most 60 seconds; `i` is the index of the first entry.
unfoldable pub sleep_for : ℕ → (ℕ → Now) → ℕ → Scheduler → ℕ → List Entry → ℕ
sleep_for today clock now_monotonic s i [] = max_sleep
sleep_for today clock now_monotonic s i (e ∷ es) =
    min (wakeup today (clock i) now_monotonic s i e)
      (sleep_for today clock now_monotonic s (suc i) es)

-- An announcement that was handed to `dispatch_announcement`: the entry, the message and whether
-- it went out.
pub record Announced : Type 0 where
  pub index : ℕ
  pub message : Text
  pub ok : Bool

-- The scheduler, and the announcements of a pass, the last one first.
pub record Pass : Type 0 where
  pub scheduler : Scheduler
  pub log : List Announced

-- What a round finds: the monotonic time at its start, the date read before the sleep, the
-- monotonic time behind it, the wall clock at each entry, the messages, and what `dispatch_announcement` returns for each entry.
pub record Surroundings : Type 0 where
  pub reconciled : ℕ
  pub today : ℕ
  pub now_monotonic : ℕ
  pub clock : ℕ → Now
  pub messages : List Text
  pub dispatch : ℕ → Text → Outcome Bool

-- After the dispatch: a daily entry that went out is marked with its date.
unfoldable pub mark_fired : ℕ → Option ℕ → Text → Pass → Bool → Pass
mark_fired i none message p ok = record p {
  log = record { index = i; message = message; ok = ok } ∷ p.log;
}
mark_fired i (some date) message p ok = record p {
  scheduler = record (p.scheduler) {
    last_fired = if ok then set_index i date p.scheduler.last_fired else p.scheduler.last_fired;
  };
  log = record { index = i; message = message; ok = ok } ∷ p.log;
}

unfoldable pub send_message : Surroundings → ℕ → Option ℕ → Option Text × ℕ → Pass → Outcome Pass
send_message w i date (none, cursor) p =
    returns (record p { scheduler = record (p.scheduler) { cursor = cursor } })
send_message w i date (some message, cursor) p = w.dispatch i message >>= λ ok. returns (
    mark_fired i date message (record p { scheduler = record (p.scheduler) { cursor = cursor } })
      ok)

-- The literal of the entry, or the next message of the rotation.
unfoldable pub choose : Option Text → List Text → ℕ → Option Text × ℕ
choose (some own) messages cursor = (some own, cursor)
choose none messages cursor = next_message messages cursor

unfoldable pub announce_entry : Surroundings → ℕ → Option ℕ → Entry → Pass → Outcome Pass
announce_entry w i date e p =
    send_message w i date (choose e.message w.messages p.scheduler.cursor) p

unfoldable pub fire_periodic : Surroundings → ℕ → ℕ → Entry → Option ℕ → Pass → Outcome Pass
fire_periodic w i n e none p = returns p
fire_periodic w i n e (some deadline) p =
    if ltb w.now_monotonic deadline
    then returns p
    else announce_entry w i none e (record p {
      scheduler = record (p.scheduler) {
        deadlines = set_index i (w.now_monotonic + n * second) p.scheduler.deadlines;
      };
    })

unfoldable pub fire_daily : Surroundings → ℕ → TimeOfDay → Entry → Pass → Outcome Pass
fire_daily w i t e p =
    let (due, date) = slot_due_now (w.clock i) t (fired_on i w.today p.scheduler.last_fired) in
    if due then announce_entry w i (some date) e p else returns p

unfoldable pub fire_slot : Surroundings → ℕ → Slot → Entry → Pass → Outcome Pass
fire_slot w i (time_of_day t) e p = fire_daily w i t e p
fire_slot w i (every_seconds n) e p = fire_periodic w i n e (at_index i p.scheduler.deadlines) p

-- The firing pass over the entries; `i` is the index of the first entry.
unfoldable pub fire_pass : Surroundings → ℕ → List Entry → Pass → Outcome Pass
fire_pass w i [] p = returns p
fire_pass w i (e ∷ es) p = fire_slot w i e.slot e p >>= λ p'. fire_pass w (suc i) es p'

-- Rounds of the loop, each with the schedule that it loads.
unfoldable pub reloading_rounds : List (Surroundings × List Entry) → Pass → Outcome Pass
reloading_rounds [] p = returns p
reloading_rounds ((w, es) ∷ loads) p =
    fire_pass w 0 es (record p { scheduler = reconcile w.reconciled es p.scheduler }) >>= λ p'.
    reloading_rounds loads p'

-- Rounds of the loop under one schedule: the state is reconciled, then due entries are fired.
unfoldable pub rounds : List Surroundings → List Entry → Pass → Outcome Pass
rounds [] es p = returns p
rounds (w ∷ ws) es p =
    fire_pass w 0 es (record p { scheduler = reconcile w.reconciled es p.scheduler }) >>= λ p'.
    rounds ws es p'

-- ===== src/Announcer/Paid.antt =====
-- How a pass of `run_scheduled_loop` of bundled-addons/defaults/announcer.py moves the deadline of a
-- periodic entry.

use native.Mathlib.Decide.{ℕ_discrete}
use jedi_academy_pterodactyl.Prelude.{
  ◌==◌, if◌then◌else◌, ℕ, suc, ◌+◌, ◌*◌, ◌≤◌, ◌≡◌, refl, ◌≢◌, Bool, Option, none, some, List, [],
  ◌∷◌, arith, ltb, Bool-cases, ◌⊎◌, inl, inr, not, ◌&&◌, leb,
}
use jedi_academy_pterodactyl.Text.{Text}
use jedi_academy_pterodactyl.Announcer.Loops.{
  Announced, set_index, at_index, ByIndex, Pass, entry_at, mark_fired, announce_entry, fire_pass,
  fire_slot, send_message, Surroundings, fire_periodic, fire_daily, second, choose, fired_on,
}
use jedi_academy_pterodactyl.Announcer.Schedule.{Entry, every_seconds, Slot, time_of_day}
use jedi_academy_pterodactyl.Announcer.Daily.{at_index-set_index}
use jedi_academy_pterodactyl.Outcome.{Holds-bind, Holds}
use jedi_academy_pterodactyl.Announcer.Clock.{slot_due_now, TimeOfDay, today_target}

-- How many of the announcements are of an entry.
unfoldable pub times : ℕ → List Announced → ℕ
times i [] = 0
times i (a ∷ log) = let rest = times i log in if a.index == i then suc rest else rest

-- The entry with index `i`, where it is in a schedule whose first index is `k`.
abbrev pub Placed : ℕ → ℕ → Slot → List Entry → Type 0
Placed i k slot es = (m : ℕ) → (e : Entry) → k + m ≡ i → entry_at m es ≡ some e → e.slot ≡ slot

-- `k` announcements of the entry have moved its deadline by as many intervals, and came by
-- `until`.
abbrev pub IsPaid : ℕ → ℕ → ℕ → ℕ → ℕ → ByIndex → Type 0
IsPaid i interval base until k deadlines =
    (deadline : ℕ) × (at_index i deadlines ≡ some deadline)
    × (base + interval + k * interval ≤ deadline)
    × (base + k * interval ≤ until)

module _ (i interval base until : ℕ) where
  abbrev pub Paid : Pass → Type 0
  Paid p = IsPaid i interval base until (times i p.log) p.scheduler.deadlines

  -- The same with one announcement more.
  abbrev pub PaidAhead : Pass → Type 0
  PaidAhead p = IsPaid i interval base until (suc (times i p.log)) p.scheduler.deadlines

  IsPaid-suc :
      (k : ℕ) (ds : ByIndex)
      → IsPaid i interval base until (suc k) ds
      → IsPaid i interval base until k ds
  IsPaid-suc k ds (d, at, moved, by) = (d, at, omega (arith, moved), omega (arith, by))

  mark_fired-Paid :
      (j : ℕ) (date : Option ℕ) (message : Text) (p : Pass) (ok : Bool)
      → j ≢ i
      → Paid p
      → Paid (mark_fired j date message p ok)
  unfolding mark_fired times
  mark_fired-Paid j none message p ok x h = elim (Bool-cases (j == i)) [
    | inl y ↦ absurd (ground (arith, x, y))
    | inr y ↦ rw y h
  ]
  mark_fired-Paid j (some date) message p ok x h = elim (Bool-cases (j == i)) [
    | inl y ↦ absurd (ground (arith, x, y))
    | inr y ↦ rw y h
  ]

  mark_fired-PaidAhead :
      (date : Option ℕ) (message : Text) (p : Pass) (ok : Bool)
      → PaidAhead p
      → Paid (mark_fired i date message p ok)
  unfolding mark_fired times
  mark_fired-PaidAhead none message p ok h = elim (Bool-cases (i == i)) [
    | inl y ↦ rw y h
    | inr y ↦ absurd (ground (arith, y))
  ]
  mark_fired-PaidAhead (some date) message p ok h = elim (Bool-cases (i == i)) [
    | inl y ↦ rw y h
    | inr y ↦ absurd (ground (arith, y))
  ]

  announce-Paid :
      (j : ℕ) (w : Surroundings) (date : Option ℕ) (e : Entry) (p : Pass)
      → ((j ≢ i) × Paid p) ⊎ ((j ≡ i) × PaidAhead p)
      → Holds Paid (announce_entry w j date e p)
  unfolding announce_entry send_message
  announce-Paid j w date e p h = send (choose e.message w.messages p.scheduler.cursor) h
    where
      send :
          (choice : Option Text × ℕ)
          → ((j ≢ i) × Paid p) ⊎ ((j ≡ i) × PaidAhead p)
          → Holds Paid (send_message w j date choice p)
      send (none, cursor) (inl (x, paid)) = paid
      send (none, cursor) (inr (x, ahead)) = IsPaid-suc (times i p.log) p.scheduler.deadlines ahead
      send (some message, cursor) (inl (x, paid)) =
          Holds-bind (λ _. Unit) Paid (w.dispatch j message) _ (ground arith)
            (λ ok _. mark_fired-Paid j date message _ ok x paid)
      send (some message, cursor) (inr (x, ahead)) =
          Holds-bind (λ _. Unit) Paid (w.dispatch j message) _ (ground arith)
            (λ ok _. rw x (mark_fired-PaidAhead date message _ ok ahead))

  fire_daily-Paid :
      (j : ℕ) (w : Surroundings) (t : TimeOfDay) (e : Entry) (p : Pass)
      → j ≢ i
      → Paid p
      → Holds Paid (fire_daily w j t e p)
  unfolding fire_daily slot_due_now
  fire_daily-Paid j w t e p x h =
      elim (Bool-cases (
        not (fired_on j w.today p.scheduler.last_fired)
        && leb (today_target t) (w.clock j).micros)) [
          | inl due ↦ rw due (announce-Paid j w (some (w.clock j).date) e p (inl (x, h)))
          | inr early ↦ rw early h
        ]

  fire_periodic-Paid :
      (j n : ℕ) (w : Surroundings) (e : Entry) (p : Pass)
      → w.now_monotonic ≤ until
      → (j ≡ i → n * second ≡ interval)
      → Paid p
      → Holds Paid (fire_periodic w j n e (at_index j p.scheduler.deadlines) p)
  unfolding fire_periodic
  fire_periodic-Paid j n w e p before paced h = fire (at_index j p.scheduler.deadlines) refl
    where
      reset : ByIndex
      reset = set_index j (w.now_monotonic + n * second) p.scheduler.deadlines

      at-reset :
          (k : ℕ)
          → at_index k reset ≡ (
              if j == k
              then some (w.now_monotonic + n * second)
              else at_index k p.scheduler.deadlines)
      at-reset k = at_index-set_index j k (w.now_monotonic + n * second) p.scheduler.deadlines

      at-other : j ≢ i → at_index i reset ≡ some (h.0)
      at-other x = ground (arith, x, at-reset i, h.1)

      at-self : j ≡ i → at_index i reset ≡ some (w.now_monotonic + n * second)
      at-self x = ground (arith, x, at-reset i)

      same_deadline :
          (deadline : ℕ) → at_index j p.scheduler.deadlines ≡ some deadline → j ≡ i → h.0 ≡ deadline
      same_deadline deadline at x = cc (h.1, at, x)

      moved :
          (deadline : ℕ)
          → at_index j p.scheduler.deadlines ≡ some deadline
          → deadline ≤ w.now_monotonic
          → Dec (j ≡ i)
          → ((j ≢ i) × IsPaid i interval base until (times i p.log) reset)
            ⊎ ((j ≡ i) × IsPaid i interval base until (suc (times i p.log)) reset)
      moved deadline at due (no x) = inl (x, (h.0, at-other x, h.2, h.3))
      moved deadline at due (yes x) = inr (
        x,
        (
          w.now_monotonic + n * second,
          at-self x,
          omega (arith, h.2, h.3, before, due, same_deadline deadline at x, paced x),
          omega (arith, h.2, h.3, before, due, same_deadline deadline at x),
        ),
      )

      fire :
          (deadline : Option ℕ)
          → at_index j p.scheduler.deadlines ≡ deadline
          → Holds Paid (fire_periodic w j n e deadline p)
      fire none at = h
      fire (some deadline) at = elim (Bool-cases (ltb w.now_monotonic deadline)) [
        | inl early ↦ rw early h
        | inr due ↦
            rw due (
              announce-Paid j w none e _ (moved deadline at (ground (arith, due)) (ℕ_discrete j i)))
      ]

  fire_slot-Paid :
      (j n : ℕ) (w : Surroundings) (slot : Slot) (e : Entry) (p : Pass)
      → w.now_monotonic ≤ until
      → n * second ≡ interval
      → (j ≡ i → slot ≡ every_seconds n)
      → Paid p
      → Holds Paid (fire_slot w j slot e p)
  unfolding fire_slot
  fire_slot-Paid j n w (time_of_day t) e p before paced placed h =
      fire_daily-Paid j w t e p (λ x. cc (placed x)) h
  fire_slot-Paid j n w (every_seconds m) e p before paced placed h =
      fire_periodic-Paid j m w e p before (λ x. cc (placed x, paced)) h

  pub fire_pass-Paid :
      (j n : ℕ) (w : Surroundings) (es : List Entry) (p : Pass)
      → w.now_monotonic ≤ until
      → n * second ≡ interval
      → Placed i j (every_seconds n) es
      → Paid p
      → Holds Paid (fire_pass w j es p)
  unfolding fire_pass
  fire_pass-Paid j n w [] p before paced placed h = h
  fire_pass-Paid j n w (e ∷ es) p before paced placed h =
      Holds-bind Paid Paid (fire_slot w j e.slot e p) _
        (fire_slot-Paid j n w e.slot e p before paced (λ x. placed 0 e (omega (arith, x)) refl) h)
        (λ p'.
          fire_pass-Paid (suc j) n w es p' before paced
            (λ m e' x. placed (suc m) e' (omega (arith, x))))

-- ===== src/Announcer/Often.antt =====
-- How often `run_scheduled_loop` of bundled-addons/defaults/announcer.py announces a periodic entry.

use jedi_academy_pterodactyl.Prelude.{
  ℕ, ◌+◌, ◌*◌, ◌≤◌, ◌≡◌, refl, true, some, List, [], ◌∷◌, arith, All, ◌∙◌,
}
use jedi_academy_pterodactyl.Announcer.Loops.{
  drop_stale, is_every, at_index, Pass, entry_at, fire_pass, reconcile, Surroundings, rounds,
  second, add_missing, new_scheduler,
}
use jedi_academy_pterodactyl.Announcer.Schedule.{Entry, every_seconds}
use jedi_academy_pterodactyl.Announcer.Daily.{at_index-drop_stale}
use jedi_academy_pterodactyl.Announcer.Paid.{times, Placed, IsPaid, Paid, fire_pass-Paid}
use jedi_academy_pterodactyl.Announcer.Deadlines.{add_missing-keeps, add_missing-adds}
use jedi_academy_pterodactyl.Outcome.{Holds-bind, Holds, returns, of_Holds}

module _ (i interval base until : ℕ) where
  abbrev Kept : Pass → Type 0
  Kept = Paid i interval base until

  reconcile-Paid :
      (now n : ℕ) (es : List Entry) (p : Pass) {e : Entry}
      → entry_at i es ≡ some e
      → e.slot ≡ every_seconds n
      → Kept p
      → Kept (record p { scheduler = reconcile now es p.scheduler })
  unfolding reconcile
  reconcile-Paid now n es p {e} placed slot (d, at, moved, by) = (d, kept, moved, by)
    where
      every : is_every (entry_at i es) ≡ true
      every = cc (placed, slot)

      kept :
          at_index i (
            drop_stale (λ k. is_every (entry_at k es)) (add_missing now 0 es p.scheduler.deadlines))
          ≡ some d
      kept =
          at_index-drop_stale (λ k. is_every (entry_at k es)) i _
          ∙ rw every (add_missing-keeps i 0 now es p.scheduler.deadlines at)

  rounds-Paid :
      (n : ℕ) (ws : List Surroundings) (es : List Entry) (p : Pass) {e : Entry}
      → entry_at i es ≡ some e
      → e.slot ≡ every_seconds n
      → n * second ≡ interval
      → All (λ w. w.now_monotonic ≤ until) ws
      → Kept p
      → Holds Kept (rounds ws es p)
  unfolding rounds
  rounds-Paid n [] es p placed slot paced before h = h
  rounds-Paid n (w ∷ ws) es p {e} placed slot paced before h =
      Holds-bind Kept Kept (fire_pass w 0 es _) _
        (fire_pass-Paid i interval base until 0 n w es _ before.0 paced only
          (reconcile-Paid w.reconciled n es p placed slot h))
        (λ p'. rounds-Paid n ws es p' placed slot paced before.1)
    where
      same_index : (m : ℕ) → 0 + m ≡ i → m ≡ i
      same_index m x = omega (arith, x)

      only : Placed i 0 (every_seconds n) es
      only m e' x at = cc (at, same_index m x, placed, slot)

-- An entry that fires every `n` seconds is announced no more often than that: rounds that take
-- place by the time `until`, under the schedule with which the loop started at `base`, announce it
-- at most once for each `n` seconds between these times.
pub rounds-times :
    (i n base until : ℕ) (ws : List Surroundings) (es : List Entry) {e : Entry} {p : Pass}
    → entry_at i es ≡ some e
    → e.slot ≡ every_seconds n
    → base ≤ until
    → All (λ w. w.now_monotonic ≤ until) ws
    → rounds ws es (record { scheduler = new_scheduler base es; log = [] }) ≡ returns p
    → base + times i p.log * (n * 1000000) ≤ until
unfolding new_scheduler times at_index
rounds-times i n base until ws es {e} {p} placed slot begun before ran =
    (of_Holds Paid' (rounds-Paid i (n * second) base until n ws es _ placed slot refl before start)
      ran).3
  where
    Paid' : Pass → Type 0
    Paid' p' = IsPaid i (n * second) base until (times i p'.log) p'.scheduler.deadlines

    start : IsPaid i (n * second) base until 0 (add_missing base 0 es [])
    start = (
      base + n * second,
      add_missing-adds i i 0 base n es [] (omega arith) placed slot refl,
      omega arith,
      omega arith,
    )

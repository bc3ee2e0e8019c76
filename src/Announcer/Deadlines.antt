-- ===== src/Announcer/Deadlines.antt =====
-- The deadlines that `run_scheduled_loop` of bundled-addons/defaults/announcer.py gives to periodic
-- entries.

use jedi_academy_pterodactyl.Prelude.{
  ℕ, zero, suc, ◌+◌, ◌*◌, ◌≡◌, ◌≢◌, none, some, List, [], ◌∷◌, arith,
}
use jedi_academy_pterodactyl.Announcer.Loops.{
  at_index, ByIndex, entry_at, second, add_missing, missing_every,
}
use jedi_academy_pterodactyl.Announcer.Schedule.{Entry, every_seconds, Slot, time_of_day}
use jedi_academy_pterodactyl.Announcer.Daily.{at_index-set_index}

missing_every-keeps :
    (i k now : ℕ) (slot : Slot) (ds : ByIndex) {d : ℕ}
    → at_index i ds ≡ some d
    → at_index i (missing_every slot k now ds) ≡ some d
missing_every-keeps i k now (time_of_day t) ds h = h
missing_every-keeps i k now (every_seconds n) ds h =
    ground (arith, h, at_index-set_index k i (now + n * second) ds)

pub add_missing-keeps :
    (i k now : ℕ) (es : List Entry) (ds : ByIndex) {d : ℕ}
    → at_index i ds ≡ some d
    → at_index i (add_missing now k es ds) ≡ some d
unfolding add_missing
add_missing-keeps i k now [] ds h = h
add_missing-keeps i k now (e ∷ es) ds h =
    add_missing-keeps i (suc k) now es _ (missing_every-keeps i k now e.slot ds h)

missing_every_ne :
    (i k now : ℕ) (slot : Slot) (ds : ByIndex)
    → k ≢ i
    → at_index i ds ≡ none
    → at_index i (missing_every slot k now ds) ≡ none
missing_every_ne i k now (time_of_day t) ds x h = h
missing_every_ne i k now (every_seconds n) ds x h =
    ground (arith, h, at_index-set_index k i (now + n * second) ds)

missing_every_self :
    (k now n : ℕ) (ds : ByIndex)
    → at_index k ds ≡ none
    → at_index k (missing_every (every_seconds n) k now ds) ≡ some (now + n * second)
missing_every_self k now n ds h = ground (arith, h, at_index-set_index k k (now + n * second) ds)

pub add_missing-adds :
    (m i k now n : ℕ) (es : List Entry) (ds : ByIndex) {found : Entry}
    → k + m ≡ i
    → entry_at m es ≡ some found
    → found.slot ≡ every_seconds n
    → at_index i ds ≡ none
    → at_index i (add_missing now k es ds) ≡ some (now + n * second)
unfolding add_missing
add_missing-adds m i k now n [] ds x placed slot h = cc placed
add_missing-adds zero i k now n (e ∷ es) ds x placed slot h =
    add_missing-keeps i (suc k) now es _ set
  where
    head : e.slot ≡ every_seconds n
    head = cc (placed, slot)

    k_is_i : k ≡ i
    k_is_i = omega (arith, x)

    set : at_index i (missing_every e.slot k now ds) ≡ some (now + n * second)
    set = rw (head, k_is_i) (missing_every_self i now n ds h)
add_missing-adds (suc m) i k now n (e ∷ es) ds x placed slot h =
    add_missing-adds m i (suc k) now n es _ (omega (arith, x)) placed slot
      (missing_every_ne i k now e.slot ds (λ y. omega (arith, x, y)) h)

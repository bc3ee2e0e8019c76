-- ===== src/Announcer/Lock.antt =====
-- The worker's lock and its PID file in bundled-addons/defaults/announcer.py: the steps of launches
-- and of workers, one process at a time, as they mix.
use jedi_academy_pterodactyl.Prelude.{
  ◌==◌, if◌then◌else◌, ℕ, ◌≡◌, Bool, true, false, Option, none, some, arith, ◌≢◌,
}

-- How far a process is. A launch looks at the lock (`previous_worker_alive`), lets go of it, starts
-- its worker and writes that one's number; a worker takes the lock (`acquire_worker_lock`), writes
-- its own number, works, lets go of the lock, and removes its number (`remove_pid_if_owned`);
-- where its configuration is disabled, it exits before it lets go.
pub data Phase : Type 0 where
  absent launching probing probed launch_over : Phase
  recording : ℕ → Phase
  started holding working released exited : Phase

-- The phases of the processes by their numbers, the holder of the lock, and the PID file.
pub record System : Type 0 where
  pub phase : ℕ → Phase
  pub lock : Option ℕ
  pub pid_file : Option ℕ

abbrev pub quiet : System
quiet = record { phase = λ _. absent; lock = none; pid_file = none }

-- The process goes over to a phase.
unfoldable pub goes : ℕ → Phase → System → System
goes i p s = record s { phase = λ j. if j == i then p else s.phase j }

-- The PID file behind `remove_pid_if_owned`
unfoldable pub unless_owned : ℕ → Option ℕ → Option ℕ
unless_owned i none = none
unless_owned i (some p) = if p == i then none else some p

unfoldable pub remove_pid_if_owned : ℕ → System → System
unfolding unless_owned
remove_pid_if_owned i s = record s { pid_file = unless_owned i s.pid_file }

-- The operating system has one holder of the lock at a time, and takes it from a process that ends.
unfoldable pub takes_lock : ℕ → System → System
takes_lock i s = record s { lock = some i }

unfoldable pub frees_lock : System → System
frees_lock s = record s { lock = none }

unfoldable pub writes_pid : ℕ → System → System
writes_pid i s = record s { pid_file = some i }

abbrev pub is_holder : Phase → Bool
is_holder probing = true
is_holder holding = true
is_holder working = true
is_holder p = false

infix 40 ◌⟶◌
pub data ◌⟶◌ : System → System → Type 0 where
  arrives : {s : System} (i : ℕ) → s.phase i ≡ absent → s ⟶ goes i launching s
  probes :
      {s : System} (i : ℕ)
      → s.phase i ≡ launching
      → s.lock ≡ none
      → s ⟶ goes i probing (takes_lock i s)
  finds_worker :
      {s : System} (i j : ℕ) → s.phase i ≡ launching → s.lock ≡ some j → s ⟶ goes i launch_over s
  finds_none : {s : System} (i : ℕ) → s.phase i ≡ probing → s ⟶ goes i probed (frees_lock s)
  spawns :
      {s : System} (i c : ℕ)
      → s.phase i ≡ probed
      → s.phase c ≡ absent
      → s ⟶ goes i (recording c) (goes c started s)
  records :
      {s : System} (i c : ℕ) → s.phase i ≡ recording c → s ⟶ goes i launch_over (writes_pid c s)
  acquires :
      {s : System} (i : ℕ)
      → s.phase i ≡ started
      → s.lock ≡ none
      → s ⟶ goes i holding (takes_lock i s)
  is_refused : {s : System} (i j : ℕ) → s.phase i ≡ started → s.lock ≡ some j → s ⟶ goes i exited s
  records_itself : {s : System} (i : ℕ) → s.phase i ≡ holding → s ⟶ goes i working (writes_pid i s)
  unlocks : {s : System} (i : ℕ) → s.phase i ≡ working → s ⟶ goes i released (frees_lock s)
  exits_early :
      {s : System} (i : ℕ)
      → s.phase i ≡ working
      → s ⟶ goes i exited (frees_lock (remove_pid_if_owned i s))
  removes :
      {s : System} (i : ℕ) → s.phase i ≡ released → s ⟶ goes i exited (remove_pid_if_owned i s)
  is_killed :
      {s : System} (i : ℕ)
      → s.phase i ≢ absent
      → s ⟶ goes i exited (if is_holder (s.phase i) then frees_lock s else s)

-- The systems that steps reach.
pub data Reached : System → Type 0 where
  begins : Reached quiet
  steps : {s t : System} → Reached s → s ⟶ t → Reached t

-- Whoever holds the lock is its holder.
abbrev IsExclusive : System → Type 0
IsExclusive s = (i : ℕ) → is_holder (s.phase i) ≡ true → s.lock ≡ some i

step-IsExclusive : {s t : System} → s ⟶ t → IsExclusive s → IsExclusive t
unfolding goes takes_lock frees_lock writes_pid remove_pid_if_owned
step-IsExclusive (arrives {s} i e) h j = ground (arith, h j)
step-IsExclusive (probes {s} i e f) h j = ground (arith, h j, f)
step-IsExclusive (finds_worker {s} i k e f) h j = ground (arith, h j)
step-IsExclusive (finds_none {s} i e) h j = ground (arith, h j, h i, e)
step-IsExclusive (spawns {s} i c e f) h j = ground (arith, h j)
step-IsExclusive (records {s} i c e) h j = ground (arith, h j)
step-IsExclusive (acquires {s} i e f) h j = ground (arith, h j, f)
step-IsExclusive (is_refused {s} i k e f) h j = ground (arith, h j)
step-IsExclusive (records_itself {s} i e) h j = ground (arith, h j, h i, e)
step-IsExclusive (unlocks {s} i e) h j = ground (arith, h j, h i, e)
step-IsExclusive (exits_early {s} i e) h j = ground (arith, h j, h i, e)
step-IsExclusive (removes {s} i e) h j = ground (arith, h j)
step-IsExclusive (is_killed {s} i e) h j = ground (arith, h j, h i)

Reached-IsExclusive : {s : System} → Reached s → IsExclusive s
Reached-IsExclusive begins = λ i h. cc
Reached-IsExclusive (steps r x) = step-IsExclusive x (Reached-IsExclusive r)

-- However launches and workers mix, also with processes that are killed: while one process holds the
-- lock, no other one holds it, so two workers never work at once.
pub Reached-is_holder :
    {s : System} (i j : ℕ)
    → Reached s
    → is_holder (s.phase i) ≡ true
    → i ≢ j
    → is_holder (s.phase j) ≡ false
Reached-is_holder i j r h k =
    ground (arith, h, k, Reached-IsExclusive r i h, Reached-IsExclusive r j)

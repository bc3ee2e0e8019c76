-- ===== src/Tests/LockTheorems.antt =====
-- The theorem on the announcer's lock at a run in which two launches race.
use jedi_academy_pterodactyl.Prelude.{◌≡◌, refl, some, false, arith}
use jedi_academy_pterodactyl.Announcer.Lock.{
  finds_none, System, steps, started, probed, working, acquires, spawns, quiet, arrives, begins,
  records, holding, launching, is_refused, probes, recording, goes, Reached, launch_over,
  writes_pid, exited, records_itself, frees_lock, probing, Reached-is_holder, takes_lock, is_holder,
}

-- The launches 1 and 2 both look at the lock before either has started its worker.
abbrev both_probed : System
both_probed = goes 2 probed (
    frees_lock (
      goes 2 probing (
        takes_lock 2 (
          goes 2 launching (
            goes 1 probed (frees_lock (goes 1 probing (takes_lock 1 (goes 1 launching quiet)))))))))

both_probed-Reached : Reached both_probed
unfolding goes frees_lock takes_lock
both_probed-Reached =
    steps
      (steps
        (steps
          (steps (steps (steps begins (arrives 1 refl)) (probes 1 refl refl)) (finds_none 1 refl))
          (arrives 2 refl))
        (probes 2 refl refl))
      (finds_none 2 refl)

-- They start the workers 3 and 4, the lock goes to 3, and the launch 2 writes its number last.
abbrev raced : System
raced = goes 2 launch_over (
    writes_pid 4 (
      goes 4 exited (
        goes 3 working (
          writes_pid 3 (
            goes 3 holding (
              takes_lock 3 (
                goes 2 (recording 4)
                  (goes 4 started (goes 1 (recording 3) (goes 3 started both_probed))))))))))

raced-Reached : Reached raced
unfolding goes frees_lock takes_lock writes_pid
raced-Reached =
    steps
      (steps
        (steps
          (steps (steps (steps both_probed-Reached (spawns 1 3 refl refl)) (spawns 2 4 refl refl))
            (acquires 3 refl refl))
          (records_itself 3 refl))
        (is_refused 4 3 refl refl))
      (records 2 4 refl)

-- The worker 3 works, and the PID file names 4, which has ended.
wrong_pid : (raced.phase 3 ≡ working) × (raced.phase 4 ≡ exited) × (raced.pid_file ≡ some 4)
unfolding goes frees_lock takes_lock writes_pid
wrong_pid = (refl, refl, refl)

Reached-is_holder_example : is_holder (raced.phase 4) ≡ false
unfolding goes frees_lock takes_lock writes_pid
Reached-is_holder_example = Reached-is_holder 3 4 raced-Reached refl (omega arith)

-- ===== src/Daemon/Signals.antt =====
-- Which processes bundled-addons/examples/deprecated/40-chatlogger.py sends signals to.
use jedi_academy_pterodactyl.Prelude.{
  ltb, ◌⊎◌, inl, inr, is_empty, ◌||◌, ◌&&◌, ℤ, pos, negsuc, ℕ, ◌<◌, ◌≡◌, refl, true, arith,
  if◌then◌else◌, All, Bool, false, not, [], ◌∷◌, All-if, Option, none, some, List,
}
use jedi_academy_pterodactyl.Daemon.Pid.{
  worker_marker, worker_flag, kill_process, terminate, Act, process_is_our_worker, unlink_pid,
  Processes, start_worker, process_is_running, stop_pid, stop_worker, read_pid_record, stop_record,
  signal_acts, survives,
}
use jedi_academy_pterodactyl.Python.Json.{Python, Json}
use jedi_academy_pterodactyl.Text.{Text, contains}
use jedi_academy_pterodactyl.Config.{Environment}
use jedi_academy_pterodactyl.Outcome.{Holds-bind, of_Holds, returns, Holds, anything}
use jedi_academy_pterodactyl.Python.Convert.{int_of}

-- At the first look a process runs under the positive number, and its command line, where one can
-- be read, has the addon's file name and the flag of the worker.
IsFound : Processes → ℤ → Type 0
IsFound os pid =
    (n : ℕ) × (0 < n)
    × (pid ≡ pos n)
    × (os.exists pid ≡ true)
    × ((os.proc_cmdline pid ≡ [])
        ⊎ ((contains (os.proc_cmdline pid) worker_marker ≡ true)
            × (contains (os.proc_cmdline pid) worker_flag ≡ true)))

-- SIGKILL moreover needs that a process is found under the number at the last look.
pub IsSafe : Processes → Act → Type 0
unfolding IsFound
IsSafe os (terminate pid) = IsFound os pid
IsSafe os (kill_process pid) = IsFound os pid × (survives os.polls os.outlives ≡ true)
IsSafe os unlink_pid = Unit
IsSafe os start_worker = Unit

both_true : (a b : Bool) → (a && b) ≡ true → (a ≡ true) × (b ≡ true)
both_true true b h = (refl, h)
both_true false b h = cc

-- What the test of a command line accepts.
command_line :
    (l : Text) (marker flag : Bool)
    → (is_empty l || (marker && flag)) ≡ true
    → (l ≡ []) ⊎ ((marker ≡ true) × (flag ≡ true))
command_line [] marker flag h = inl refl
command_line (c ∷ cs) marker flag h = inr (both_true marker flag h)

positive_lt : (n : ℕ) → ltb 0 n ≡ true → 0 < n
positive_lt n h = ground (arith, h)

worker-IsFound : (os : Processes) (pid : ℤ) → process_is_our_worker os pid ≡ true → IsFound os pid
unfolding process_is_our_worker process_is_running IsFound
worker-IsFound os (pos n) h =
    let (running, named) = both_true (ltb 0 n && os.exists (pos n)) _ h in
    let (positive, exists) = both_true (ltb 0 n) (os.exists (pos n)) running in
    (n, positive_lt n positive, refl, exists, command_line (os.proc_cmdline (pos n)) _ _ named)
worker-IsFound os (negsuc n) h = cc

module _ ⦃py : Python⦄ where
  signals-IsSafe :
      (os : Processes) (pid : ℤ)
      → process_is_our_worker os pid ≡ true
      → All (IsSafe os) (signal_acts os pid)
  unfolding signal_acts IsSafe
  signals-IsSafe os pid e =
      All-if (IsSafe os) (not (os.can_signal pid)) _ _ tt
        (branch (survives os.polls os.outlives) refl)
    where
      branch :
          (b : Bool)
          → survives os.polls os.outlives ≡ b
          → All (IsSafe os) (
              if b
              then terminate pid ∷ kill_process pid ∷ unlink_pid ∷ []
              else terminate pid ∷ unlink_pid ∷ [])
      branch true lives = (worker-IsFound os pid e, ((worker-IsFound os pid e, lives), (tt, tt)))
      branch false lives = (worker-IsFound os pid e, (tt, tt))

  stop_pid-IsSafe : (os : Processes) (pid : ℤ) → All (IsSafe os) (stop_pid os pid)
  unfolding stop_pid IsSafe
  stop_pid-IsSafe os pid =
      All-if (IsSafe os) (not (process_is_running os pid)) _ _ (tt, tt)
        (worker_or_not (process_is_our_worker os pid) refl)
    where
      worker_or_not :
          (b : Bool)
          → process_is_our_worker os pid ≡ b
          → All (IsSafe os) (if not b then unlink_pid ∷ [] else signal_acts os pid)
      worker_or_not true e = signals-IsSafe os pid e
      worker_or_not false e = (tt, tt)

  stop_record-IsSafe :
      (os : Processes) (o : Option Json) → Holds (All (IsSafe os)) (stop_record os o)
  unfolding stop_record
  stop_record-IsSafe os none = tt
  stop_record-IsSafe os (some v) =
      Holds-bind (λ _. Unit) (All (IsSafe os)) (int_of v) _ (anything _)
        (λ pid _. stop_pid-IsSafe os pid)

  -- Whatever the PID file holds, stopping the worker sends SIGTERM only to a positive number, so
  -- never to a process group, under which it has just found a process whose command line, where one
  -- can be read, has the addon's file name and the flag of the worker; and SIGKILL only to such a
  -- number, if a process is found under it at the last look, whose command line is not read again.
  pub stop_worker-IsSafe :
      (env : Environment) (os : Processes) {acts : List Act}
      → stop_worker env os ≡ returns acts
      → All (IsSafe os) acts
  unfolding stop_worker
  stop_worker-IsSafe env os ran =
      of_Holds (All (IsSafe os))
        (Holds-bind (λ _. Unit) (All (IsSafe os)) (read_pid_record env) _ (anything _)
          (λ o _. stop_record-IsSafe os o))
        ran

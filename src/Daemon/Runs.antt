-- ===== src/Daemon/Runs.antt =====
-- Whole runs of the worker of bundled-addons/examples/deprecated/40-chatlogger.py.
use jedi_academy_pterodactyl.Prelude.{
  if-All, ℕ, false, List, [], ◌∷◌, leb, if◌then◌else◌, refl, Bool, true, ◌||◌, arith,
}
use jedi_academy_pterodactyl.Python.Json.{Python}
use jedi_academy_pterodactyl.Daemon.Counters.{
  IsSound, heartbeat-IsSound, IsSteady, on_tail_line-IsSound, chat_count, and_then-All, beats,
  IsLast,
}
use jedi_academy_pterodactyl.Daemon.Loop.{
  begin, missing, Worker, reset_backoff, on_turn, pause, Served, refused_start, Turn, tail_in,
  tail_lines, wait_in, tailed, turns, heartbeats, unreadable,
}
use jedi_academy_pterodactyl.Daemon.Retention.{Limits}
use jedi_academy_pterodactyl.Daemon.Worker.{
  on_tail_line, ◌and_then◌, Tick, clean, new_runtime, heartbeat, WorkerRuntime, Tried, note, raised,
  done, cleaned_logs,
}

module _ ⦃py : Python⦄ (limits : Limits) (interval most : ℕ) where
  tail_lines-IsSound :
      (spawned : ℕ) (ts : List Tick) (s : WorkerRuntime) (b : ℕ)
      → IsSound interval 0 s
      → IsSound interval 0 (tail_lines limits interval most spawned ts s b).runtime
  unfolding tail_lines
  tail_lines-IsSound spawned [] s b h = h
  tail_lines-IsSound spawned (t ∷ ts) s b h =
      if-All {A = Served} (λ left. IsSound interval 0 left.runtime) t.shutdown _ _ h
        (if-All {A = Served} (λ left. IsSound interval 0 left.runtime)
          (on_tail_line limits interval t s).returned _ _
          (tail_lines-IsSound spawned ts (on_tail_line limits interval t s).state
            (reset_backoff spawned t b) (on_tail_line-IsSound interval limits t s h))
          (on_tail_line-IsSound interval limits t s h))

  heartbeats-IsSound :
      (ts : List Tick) (s : WorkerRuntime)
      → IsSound interval 0 s
      → IsSound interval 0 (heartbeats limits interval most ts s).state
  unfolding heartbeats
  heartbeats-IsSound [] s h = h
  heartbeats-IsSound (t ∷ ts) s h =
      if-All {A = Tried} (λ tried. IsSound interval 0 tried.state) t.shutdown _ _ h
        (and_then-All (IsSound interval 0) (IsSound interval 0) (heartbeat false interval t s)
          (heartbeats limits interval most ts) (heartbeat-IsSound interval t s h) (λ s' k. k)
          (heartbeats-IsSound ts))

  on_turn-IsSound :
      (u : Turn) (w : Worker)
      → IsSound interval 0 w.runtime
      → IsSound interval 0 (on_turn limits interval most u w).runtime
  unfolding on_turn wait_in tail_in pause IsSound
  on_turn-IsSound unreadable w h = h
  on_turn-IsSound (missing ts) w h = heartbeats-IsSound ts w.runtime h
  on_turn-IsSound (refused_start ts) w h = heartbeats-IsSound ts w.runtime h
  on_turn-IsSound (tailed spawned ts ws) w h =
      if-All {A = Worker} (λ v. IsSound interval 0 v.runtime) _ _ _ after
        (heartbeats-IsSound ws _ after)
    where
      after :
          IsSound interval 0
            (tail_lines limits interval most spawned ts w.runtime w.backoff).runtime
      after = tail_lines-IsSound spawned ts w.runtime w.backoff h

  turns-IsSound_from :
      (us : List Turn) (w : Worker)
      → IsSound interval 0 w.runtime
      → IsSound interval 0 (turns limits interval most us w).runtime
  unfolding turns
  turns-IsSound_from [] w h = h
  turns-IsSound_from (u ∷ us) w h =
      if-All {A = Worker} (λ v. IsSound interval 0 v.runtime) w.ended _ _ h
        (turns-IsSound_from us _ (on_turn-IsSound u w h))

  begin-IsSound : (t : Tick) → IsSound interval 0 (begin limits interval most t).runtime
  unfolding begin new_runtime clean heartbeat ◌and_then◌ IsSound chat_count beats IsSteady IsLast
  begin-IsSound t = branch (leb t.date limits.plain_days || leb t.date limits.total_days)
    where
      fresh : WorkerRuntime
      fresh = new_runtime t.monotonic t.date

      branch :
          (b : Bool)
          → IsSound interval 0
              ((if b
                  then raised fresh
                  else done
                      (note (cleaned_logs t.date) (record fresh { last_cleanup = t.monotonic })))
                and_then heartbeat true interval t).state
      branch true = (omega arith, refl, tt, tt)
      branch false = (omega arith, refl, tt, refl)

  -- Whatever the worker meets before it leaves its loop, also exceptions of its writes, its cleanups
  -- and its signs of life: the count of the messages is the number of lines that it has written to
  -- the logs and flushed, and no more than the count of the lines that it has read; and of two signs
  -- of life, the forced one at the exit left aside, the second comes no sooner than
  -- `HEARTBEAT_SECONDS` after the first.
  pub turns-IsSound :
      (t : Tick) (us : List Turn)
      → IsSound interval 0 (turns limits interval most us (begin limits interval most t)).runtime
  turns-IsSound t us = turns-IsSound_from us (begin limits interval most t) (begin-IsSound t)

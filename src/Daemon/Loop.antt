-- ===== src/Daemon/Loop.antt =====
-- `worker_loop` of bundled-addons/examples/deprecated/40-chatlogger.py: the tails that it starts one
-- after another, and the pauses between them. The pauses are in seconds.
use jedi_academy_pterodactyl.Prelude.{
  ltb, leb, if◌then◌else◌, ℕ, ◌+◌, ◌*◌, Bool, true, false, not, List, [], ◌∷◌,
}
use jedi_academy_pterodactyl.Python.Json.{Python}
use jedi_academy_pterodactyl.Daemon.Retention.{Limits}
use jedi_academy_pterodactyl.Daemon.Worker.{
  WorkerRuntime, close_output, clean, on_tail_line, Tick, Tried, done, new_runtime, heartbeat,
  ◌and_then◌, raised,
}

-- The state of the loop: the runtime, the next pause, the pauses that were made, the last one
-- first, and whether an exception or a shutdown has ended the loop.
pub record Worker : Type 0 where
  pub runtime : WorkerRuntime
  pub backoff : ℕ
  pub pauses : List ℕ
  pub ended : Bool

-- What a tail leaves: the runtime, the next pause, and whether a shutdown was asked for.
pub record Served : Type 0 where
  pub runtime : WorkerRuntime
  pub backoff : ℕ
  pub stopped : Bool

abbrev pub served : Bool → WorkerRuntime → ℕ → Served
served stop s backoff = record { runtime = s; backoff = backoff; stopped = stop }

-- A turn of the loop, with the looks at the clock while it waits: the choice of the file raises, the
-- file is not there, `tail` cannot be started, or it is started at a time and gives lines.
pub data Turn : Type 0 where
  unreadable : Turn
  missing : List Tick → Turn
  refused_start : List Tick → Turn
  tailed : ℕ → List Tick → List Tick → Turn

abbrev pub min_ℕ : ℕ → ℕ → ℕ
min_ℕ a b = if leb a b then a else b

-- `min(backoff * 2, TAIL_RESTART_BACKOFF_MAX)`
unfoldable pub next_backoff : ℕ → ℕ → ℕ
next_backoff most backoff = min_ℕ (backoff * 2) most

-- `TAIL_RESTART_BACKOFF_INITIAL`, once a line has come more than five seconds behind the start
unfoldable pub reset_backoff : ℕ → Tick → ℕ → ℕ
reset_backoff spawned t backoff = if ltb (spawned + 5 * 1000000) t.monotonic then 1 else backoff

-- The loop goes on with a pause of the present length and doubles the next one.
unfoldable pub pause : ℕ → Worker → Worker
unfolding next_backoff
pause most w = record w { backoff = next_backoff most w.backoff; pauses = w.backoff ∷ w.pauses }

module _ ⦃py : Python⦄ (limits : Limits) (interval most : ℕ) where
  -- The lines of a tail, until a shutdown or an exception ends it.
  unfoldable pub tail_lines : ℕ → List Tick → WorkerRuntime → ℕ → Served
  unfolding on_tail_line reset_backoff
  tail_lines spawned [] s backoff = served false s backoff
  tail_lines spawned (t ∷ ts) s backoff =
      let tried = on_tail_line limits interval t s in
      let onward = tail_lines spawned ts tried.state (reset_backoff spawned t backoff) in
      if t.shutdown
      then served true s backoff
      else if tried.returned
      then onward
      else served false tried.state backoff

  -- The signs of life of a wait; a shutdown, and an exception of one, leave the loop.
  unfoldable pub heartbeats : List Tick → WorkerRuntime → Tried
  unfolding heartbeat
  heartbeats [] s = done s
  heartbeats (t ∷ ts) s =
      let beaten = heartbeat false interval t s and_then heartbeats ts in
      if t.shutdown then raised s else beaten

  unfoldable pub wait_in : List Tick → Worker → Worker
  unfolding heartbeats
  wait_in ts w = record w {
    runtime = (heartbeats ts w.runtime).state;
    ended = not (heartbeats ts w.runtime).returned;
  }

  unfoldable pub tail_in : ℕ → List Tick → Worker → Worker
  unfolding tail_lines
  tail_in spawned ts w =
      let left = tail_lines spawned ts w.runtime w.backoff in
      record w { runtime = left.runtime; backoff = left.backoff; ended = left.stopped }

  unfoldable pub on_turn : Turn → Worker → Worker
  unfolding wait_in tail_in pause
  on_turn unreadable w = record w { ended = true }
  on_turn (missing ts) w = wait_in ts w
  on_turn (refused_start ts) w = pause most (wait_in ts w)
  on_turn (tailed spawned ts ws) w =
      let after = tail_in spawned ts w in
      let paused = pause most (wait_in ws after) in if after.ended then after else paused

  -- The loop, until a shutdown or an exception ends it.
  unfoldable pub turns : List Turn → Worker → Worker
  unfolding on_turn
  turns [] w = w
  turns (u ∷ us) w = let onward = turns us (on_turn u w) in if w.ended then w else onward

  -- The cleanup and the first sign of life come before the loop.
  unfoldable pub begin : Tick → Worker
  unfolding new_runtime clean heartbeat
  begin t =
      let tried =
        clean limits t (new_runtime t.monotonic t.date) and_then heartbeat true interval t in
      record { runtime = tried.state; backoff = 1; pauses = []; ended = not tried.returned }

  -- The exit, unless an exception has ended the worker.
  unfoldable pub leave : Tick → WorkerRuntime → Tried
  unfolding close_output heartbeat
  leave t s = heartbeat true interval t (close_output s)

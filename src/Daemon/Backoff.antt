-- ===== src/Daemon/Backoff.antt =====
-- The pauses of the worker of bundled-addons/examples/deprecated/40-chatlogger.py.
use jedi_academy_pterodactyl.Prelude.{All, ℕ, ◌≤◌, List, [], ◌∷◌, arith, if-All}
use jedi_academy_pterodactyl.Python.Json.{Python}
use jedi_academy_pterodactyl.Daemon.Loop.{
  reset_backoff, tail_lines, pause, Worker, next_backoff, wait_in, on_turn, missing, tail_in,
  refused_start, turns, tailed, Turn, begin, Served, unreadable,
}
use jedi_academy_pterodactyl.Daemon.Retention.{Limits}
use jedi_academy_pterodactyl.Daemon.Worker.{on_tail_line, Tick, WorkerRuntime}

-- The pauses, and the next one, lie between one second and the greatest one.
pub IsBounded : ℕ → Worker → Type 0
IsBounded most w = (1 ≤ w.backoff) × (w.backoff ≤ most) × All (λ p. (1 ≤ p) × (p ≤ most)) w.pauses

module _ ⦃py : Python⦄ (limits : Limits) (interval most : ℕ) where
  pause-IsBounded : (w : Worker) → 1 ≤ most → IsBounded most w → IsBounded most (pause most w)
  unfolding pause next_backoff IsBounded
  pause-IsBounded w positive (least, greatest, all) =
      (ground (arith, least, positive), ground (arith, least, positive), ((least, greatest), all))

  -- The reset keeps the bounds.
  reset-bounds :
      (spawned : ℕ) (t : Tick) (b : ℕ)
      → 1 ≤ most
      → (1 ≤ b) × (b ≤ most)
      → (1 ≤ reset_backoff spawned t b) × (reset_backoff spawned t b ≤ most)
  unfolding reset_backoff
  reset-bounds spawned t b positive (least, greatest) =
      (ground (arith, least), ground (arith, positive, greatest))

  tail_lines-bounds :
      (spawned : ℕ) (ts : List Tick) (s : WorkerRuntime) (b : ℕ)
      → 1 ≤ most
      → (1 ≤ b) × (b ≤ most)
      → (1 ≤ (tail_lines limits interval most spawned ts s b).backoff)
        × ((tail_lines limits interval most spawned ts s b).backoff ≤ most)
  unfolding tail_lines
  tail_lines-bounds spawned [] s b positive h = h
  tail_lines-bounds spawned (t ∷ ts) s b positive h =
      if-All {A = Served} (λ left. (1 ≤ left.backoff) × (left.backoff ≤ most)) t.shutdown _ _ h
        (if-All {A = Served} (λ left. (1 ≤ left.backoff) × (left.backoff ≤ most))
          (on_tail_line limits interval t s).returned _ _
          (tail_lines-bounds spawned ts (on_tail_line limits interval t s).state
            (reset_backoff spawned t b) positive (reset-bounds spawned t b positive h))
          h)

  on_turn-IsBounded :
      (u : Turn) (w : Worker)
      → 1 ≤ most
      → IsBounded most w
      → IsBounded most (on_turn limits interval most u w)
  unfolding on_turn wait_in IsBounded
  on_turn-IsBounded unreadable w positive h = h
  on_turn-IsBounded (missing ts) w positive h = h
  on_turn-IsBounded (refused_start ts) w positive h =
      pause-IsBounded (wait_in limits interval most ts w) positive h
  on_turn-IsBounded (tailed spawned ts ws) w positive (least, greatest, all) =
      if-All (IsBounded most) left.ended _ _ bounded
        (pause-IsBounded (wait_in limits interval most ws left) positive bounded)
    where
      left : Worker
      left = tail_in limits interval most spawned ts w

      bounded : IsBounded most left
      bounded =
          let b = tail_lines-bounds spawned ts w.runtime w.backoff positive (least, greatest) in
          (b.0, b.1, all)

  turns-IsBounded :
      (us : List Turn) (w : Worker)
      → 1 ≤ most
      → IsBounded most w
      → IsBounded most (turns limits interval most us w)
  unfolding turns
  turns-IsBounded [] w positive h = h
  turns-IsBounded (u ∷ us) w positive h =
      if-All (IsBounded most) w.ended _ _ h
        (turns-IsBounded us _ positive (on_turn-IsBounded u w positive h))

  -- Whatever the worker meets, if `TAIL_RESTART_BACKOFF_MAX` is at least one second, each pause of a
  -- run, and the next one, lies between one second and that many seconds.
  pub turns-bounds :
      (t : Tick) (us : List Turn)
      → 1 ≤ most
      → IsBounded most (turns limits interval most us (begin limits interval most t))
  unfolding begin IsBounded
  turns-bounds t us positive =
      turns-IsBounded us (begin limits interval most t) positive (omega arith, positive, tt)

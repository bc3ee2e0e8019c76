-- ===== src/Follow.antt =====
-- How the workers of bundled-addons/examples/deprecated/20-live-team-announcer.py and
-- 50-rcon-live-guard.py, which declare this alike, start, and follow one tail after another. The
-- pauses are in seconds.

pub mod Paced
use jedi_academy_pterodactyl.Prelude.{
  if◌then◌else◌, ℕ, Bool, not, ◌&&◌, Option, none, some, List, [], ◌∷◌,
}
use jedi_academy_pterodactyl.Config.{Environment}
use jedi_academy_pterodactyl.Outcome.{Outcome, returns, ◌>>=◌}
use jedi_academy_pterodactyl.Daemon.Loop.{next_backoff}
use jedi_academy_pterodactyl.Guard.Runtime.{Source}

-- A turn of the loop: the environment in which the source is chosen, whether its file is there,
-- whether `tail` can be started, and what it gives until it ends.
pub record TailTurn (I : Type 0) : Type 0 where
  pub env : Environment
  pub present : Bool
  pub starts : Bool
  pub input : List I

-- The state of the addon, the pause behind the next refused start, and the pauses that were made, the
-- last one first.
pub record Follower (S : Type 0) : Type 0 where
  pub state : S
  pub backoff : ℕ
  pub slept : List ℕ

abbrev pub rests : {S : Type 0} → ℕ → Follower S → Follower S
rests n f = record f { slept = n ∷ f.slept }

-- A refused start doubles the next pause, up to 30 seconds.
unfoldable pub refuse : {S : Type 0} → Follower S → Follower S
unfolding next_backoff
refuse f = record f { backoff = next_backoff 30 f.backoff; slept = f.backoff ∷ f.slept }

-- `source` is `preferred_tail_source`, and `serve` the loop over the lines of a tail.
module _ {S I : Type 0} (source : Environment → Outcome (Option Source))
    (serve : List I → S → Outcome S) where
  -- A tail that ends is started again after a second.
  unfoldable pub serve_tail : TailTurn I → Follower S → Outcome (Follower S)
  serve_tail t f = serve t.input f.state >>= λ s.
      returns (record { state = s; backoff = 1; slept = 1 ∷ f.slept })

  unfoldable pub follow_file : TailTurn I → Follower S → Outcome (Follower S)
  unfolding refuse serve_tail
  follow_file t f =
      if not t.present
      then returns (rests 2 f)
      else if not t.starts
      then returns (refuse f)
      else serve_tail t f

  unfoldable pub follow_source : TailTurn I → Follower S → Option Source → Outcome (Follower S)
  unfolding follow_file
  follow_source t f none = returns (rests 5 f)
  follow_source t f (some path) = follow_file t f

  unfoldable pub follow : List (TailTurn I) → Follower S → Outcome (Follower S)
  unfolding follow_source
  follow [] f = returns f
  follow (t ∷ ts) f = source t.env >>= λ path. follow_source t f path >>= follow ts

-- How `run_worker` goes on: it exits, or it follows its tails.
pub data Start : Type 0 where
  exits_at_once follows : Start

-- The configuration is loaded before the lock is tried.
unfoldable pub start_of : {C : Type 0} → (C → Bool) → Outcome C → Bool → Outcome Start
start_of enabled config lock_free =
    config >>= λ c. returns (if lock_free && enabled c then follows else exits_at_once)

-- Whether `launch_background_worker` starts a process.
unfoldable pub launches : {C : Type 0} → (C → Bool) → Outcome C → Bool → Outcome Bool
launches enabled config lock_free = config >>= λ c. returns (enabled c && lock_free)

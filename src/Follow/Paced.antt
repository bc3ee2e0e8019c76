-- ===== src/Follow/Paced.antt =====
-- The pauses of the workers of bundled-addons/examples/deprecated/20-live-team-announcer.py and
-- 50-rcon-live-guard.py.
use jedi_academy_pterodactyl.Prelude.{All, ◌≤◌, ◌≡◌, not, Option, none, some, List, [], ◌∷◌, arith}
use jedi_academy_pterodactyl.Config.{Environment}
use jedi_academy_pterodactyl.Follow.{
  TailTurn, follow, serve_tail, Follower, follow_file, refuse, follow_source,
}
use jedi_academy_pterodactyl.Outcome.{
  Holds-bind, Holds-if, anything, of_Holds, Holds, Outcome, returns,
}
use jedi_academy_pterodactyl.Daemon.Loop.{next_backoff}
use jedi_academy_pterodactyl.Guard.Runtime.{Source}

-- Each pause, and the next one, lies between 1 and 30 seconds.
pub IsPaced : {S : Type 0} → Follower S → Type 0
IsPaced f = (1 ≤ f.backoff) × (f.backoff ≤ 30) × All (λ p. (1 ≤ p) × (p ≤ 30)) f.slept

module _ {S I : Type 0} (source : Environment → Outcome (Option Source))
    (serve : List I → S → Outcome S) where
  refuse-IsPaced : (f : Follower S) → IsPaced f → IsPaced (refuse f)
  unfolding refuse next_backoff IsPaced
  refuse-IsPaced f (least, greatest, all) =
      (ground (arith, least), ground (arith, least), ((least, greatest), all))

  follow_file-IsPaced :
      (t : TailTurn I) (f : Follower S) → IsPaced f → Holds IsPaced (follow_file source serve t f)
  unfolding follow_file serve_tail IsPaced
  follow_file-IsPaced t f (least, greatest, all) =
      Holds-if {A = Follower S} IsPaced _ _ (not t.present)
        (least, greatest, ((omega arith, omega arith), all))
        (Holds-if {A = Follower S} IsPaced _ _ (not t.starts)
          (refuse-IsPaced f (least, greatest, all))
          (Holds-bind {A = S} {B = Follower S} (λ _. Unit) IsPaced (serve t.input f.state) _
            (anything _) (λ s _. (omega arith, omega arith, ((omega arith, omega arith), all)))))

  follow_source-IsPaced :
      (t : TailTurn I) (f : Follower S) (o : Option Source)
      → IsPaced f
      → Holds IsPaced (follow_source source serve t f o)
  unfolding follow_source IsPaced
  follow_source-IsPaced t f none (least, greatest, all) =
      (least, greatest, ((omega arith, omega arith), all))
  follow_source-IsPaced t f (some path) h = follow_file-IsPaced t f h

  follow-IsPaced_from :
      (ts : List (TailTurn I)) (f : Follower S)
      → IsPaced f
      → Holds IsPaced (follow source serve ts f)
  unfolding follow
  follow-IsPaced_from [] f h = h
  follow-IsPaced_from (t ∷ ts) f h =
      Holds-bind {A = Option Source} {B = Follower S} (λ _. Unit) IsPaced (source t.env) _
        (anything _)
        (λ path _.
          Holds-bind {A = Follower S} {B = Follower S} IsPaced IsPaced
            (follow_source source serve t f path) _ (follow_source-IsPaced t f path h)
            (follow-IsPaced_from ts))

  -- What every tail keeps, the whole run keeps.
  pub follow-state :
      (P : S → Type 0)
      → ((is : List I) (s : S) → P s → Holds P (serve is s))
      → (ts : List (TailTurn I)) (f : Follower S) → P f.state
      → Holds (λ g. P g.state) (follow source serve ts f)
  unfolding follow follow_source follow_file refuse serve_tail
  follow-state P keeps [] f h = h
  follow-state P keeps (t ∷ ts) f h =
      Holds-bind {A = Option Source} {B = Follower S} (λ _. Unit) (λ g. P g.state) (source t.env) _
        (anything _)
        (λ path _.
          Holds-bind {A = Follower S} {B = Follower S} (λ g. P g.state) (λ g. P g.state)
            (follow_source source serve t f path) _ (turn path) (follow-state P keeps ts))
    where
      turn : (o : Option Source) → Holds (λ g. P g.state) (follow_source source serve t f o)
      turn none = h
      turn (some path) =
          Holds-if {A = Follower S} (λ g. P g.state) _ _ (not t.present) h
            (Holds-if {A = Follower S} (λ g. P g.state) _ _ (not t.starts) h
              (Holds-bind {A = S} {B = Follower S} P (λ g. P g.state) (serve t.input f.state) _
                (keeps t.input f.state h) (λ s k. k)))

  -- Whatever sources and tails a worker meets and whatever it does with the lines, if it comes to the
  -- end of a run, each pause that it made, and the next one, lies between 1 and 30 seconds.
  pub follow-IsPaced :
      (ts : List (TailTurn I)) (s : S) {f : Follower S}
      → follow source serve ts (record { state = s; backoff = 1; slept = [] }) ≡ returns f
      → IsPaced f
  unfolding IsPaced
  follow-IsPaced ts s ran =
      of_Holds IsPaced
        (follow-IsPaced_from ts (record { state = s; backoff = 1; slept = [] })
          (omega arith, omega arith, tt))
        ran

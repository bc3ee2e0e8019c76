-- ===== src/Announcer/Switch.antt =====
-- The two loops of bundled-addons/defaults/announcer.py as they call one another: a configuration
-- that gains or loses its schedule moves the worker from one to the other.
use jedi_academy_pterodactyl.Prelude.{
  if◌then◌else◌, is_empty, ℕ, ◌≡◌, refl, Bool, true, false, not, List, [], ◌∷◌, sym, ap, ◌∙◌,
}
use jedi_academy_pterodactyl.Outcome.{
  Outcome, ◌>>=◌, Holds, returns, Holds-if, anything, of_Holds, Holds-bind,
}
use jedi_academy_pterodactyl.Announcer.Loops.{
  reconcile, Pass, new_scheduler, Surroundings, fire_pass,
}
use jedi_academy_pterodactyl.Announcer.Interval.{
  Course, interval_round, to_schedule, IntervalRound, Rotation, worker_exits, goes_on,
  announce_next,
}
use jedi_academy_pterodactyl.Announcer.Config.{AnnouncerConfig}

-- What a round of either loop finds: the configuration, the monotonic time at which a scheduled loop
-- begins, the times and the network, and whether the shutdown event is set in the sleep.
pub record Round : Type 0 where
  pub config : Outcome AnnouncerConfig
  pub base : ℕ
  pub around : Surroundings
  pub stops : Bool

-- Where the worker is.
pub data Mode : Type 0 where
  in_interval : Rotation → Mode
  in_schedule : Pass → Mode
  has_exited : Mode

-- The state with which `run_simple_interval_loop` begins.
abbrev pub new_rotation : Rotation
new_rotation = record { cursor = 0; dispatched = [] }

-- The state with which `run_scheduled_loop` begins.
unfoldable pub new_pass : ℕ → AnnouncerConfig → Pass
unfolding new_scheduler
new_pass base config = record { scheduler = new_scheduler base config.schedule; log = [] }

-- The choice at the end of `run_worker`.
unfoldable pub first_mode : ℕ → AnnouncerConfig → Mode
unfolding new_pass
first_mode base config =
    if not (is_empty config.schedule)
    then in_schedule (new_pass base config)
    else in_interval new_rotation

unfoldable pub mode_after : ℕ → AnnouncerConfig → Course × Rotation → Mode
unfolding new_pass
mode_after base config (goes_on, s) = in_interval s
mode_after base config (worker_exits, s) = has_exited
mode_after base config (to_schedule, s) = in_schedule (new_pass base config)

unfoldable pub interval_step : Round → AnnouncerConfig → Rotation → Outcome Mode
unfolding interval_round mode_after
interval_step r config s =
    interval_round
      (record { config = returns config; dispatch = r.around.dispatch 0; shutdown = r.stops }) s
    >>= λ out. returns (mode_after r.base config out)

-- The messages are those of the configuration.
unfoldable pub fire_round : Round → AnnouncerConfig → Pass → Outcome Mode
unfolding fire_pass reconcile
fire_round r config p =
    fire_pass (record (r.around) { messages = config.messages }) 0 config.schedule
      (record p { scheduler = reconcile r.around.reconciled config.schedule p.scheduler })
    >>= λ p'. returns (in_schedule p')

unfoldable pub scheduled_step : Round → AnnouncerConfig → Pass → Outcome Mode
unfolding fire_round
scheduled_step r config p =
    if not config.enabled
    then returns has_exited
    else if is_empty config.schedule
    then returns (in_interval new_rotation)
    else if r.stops
    then returns has_exited
    else fire_round r config p

unfoldable pub mode_step : Round → AnnouncerConfig → Mode → Outcome Mode
unfolding interval_step scheduled_step
mode_step r config (in_interval s) = interval_step r config s
mode_step r config (in_schedule p) = scheduled_step r config p
mode_step r config has_exited = returns has_exited

-- A round loads the configuration, unless the worker has exited.
unfoldable pub worker_round : Round → Mode → Outcome Mode
unfolding mode_step
worker_round r has_exited = returns has_exited
worker_round r m = r.config >>= λ config. mode_step r config m

unfoldable pub worker_rounds : List Round → Mode → Outcome Mode
unfolding worker_round
worker_rounds [] m = returns m
worker_rounds (r ∷ rs) m = worker_round r m >>= worker_rounds rs

-- The mode is the one of the configuration, which is enabled, or the worker has exited.
pub Fits : AnnouncerConfig → Mode → Type 0
Fits config (in_interval s) = (config.enabled ≡ true) × (is_empty config.schedule ≡ true)
Fits config (in_schedule p) = (config.enabled ≡ true) × (is_empty config.schedule ≡ false)
Fits config has_exited = Unit

interval_step-Fits :
    (r : Round) (config : AnnouncerConfig) (s : Rotation)
    → Holds (Fits config) (interval_step r config s)
unfolding interval_step interval_round mode_after Fits
interval_step-Fits r config s = branch config.enabled refl (is_empty config.schedule) refl
  where
    i : IntervalRound
    i = record { config = returns config; dispatch = r.around.dispatch 0; shutdown = r.stops }

    ends :
        (b : Bool) (s' : Rotation)
        → config.enabled ≡ true
        → is_empty config.schedule ≡ true
        → Fits config (mode_after r.base config ((if b then worker_exits else goes_on), s'))
    ends true s' e f = tt
    ends false s' e f = (e, f)

    branch :
        (b : Bool)
        → config.enabled ≡ b
        → (c : Bool) → is_empty config.schedule ≡ c
        → Holds (Fits config) (
            (if not b
              then returns (worker_exits, s)
              else if not c
              then returns (to_schedule, s)
              else announce_next i config.messages s >>= λ s'.
                  returns ((if r.stops then worker_exits else goes_on), s'))
            >>= λ out. returns (mode_after r.base config out))
    branch false e c f = tt
    branch true e false f = (e, f)
    branch true e true f =
        Holds-bind {A = Course × Rotation} {B = Mode}
          (λ out. Fits config (mode_after r.base config out)) (Fits config) _ _
          (Holds-bind {A = Rotation} {B = Course × Rotation} (λ _. Unit)
            (λ out. Fits config (mode_after r.base config out)) (announce_next i config.messages s)
            _ (anything _) (λ s' _. ends r.stops s' e f))
          (λ out h. h)

scheduled_step-Fits :
    (r : Round) (config : AnnouncerConfig) (p : Pass)
    → Holds (Fits config) (scheduled_step r config p)
unfolding scheduled_step Fits fire_round
scheduled_step-Fits r config p = branch config.enabled refl (is_empty config.schedule) refl
  where
    branch :
        (b : Bool)
        → config.enabled ≡ b
        → (c : Bool) → is_empty config.schedule ≡ c
        → Holds (Fits config) (
            if not b
            then returns has_exited
            else if c
            then returns (in_interval new_rotation)
            else if r.stops
            then returns has_exited
            else fire_round r config p)
    branch false e c f = tt
    branch true e true f = (e, f)
    branch true e false f = Holds-if {A = Mode} (Fits config) _ _ r.stops tt (
        Holds-bind {A = Pass} {B = Mode} (λ _. Unit) (Fits config)
          (fire_pass (record (r.around) { messages = config.messages }) 0 config.schedule
            (record p { scheduler = reconcile r.around.reconciled config.schedule p.scheduler }))
          _ (anything _) (λ p' _. (e, f)))

-- A round that loads a configuration leaves the worker in the loop that this configuration asks for:
-- in the scheduled loop if it is enabled and has a schedule, in the interval loop if it is enabled
-- and has none; or the worker has exited, as it always has if the configuration is disabled.
pub worker_round-Fits :
    (r : Round) (m : Mode) {m' : Mode} {config : AnnouncerConfig}
    → r.config ≡ returns config
    → worker_round r m ≡ returns m'
    → Fits config m'
unfolding worker_round mode_step Fits
worker_round-Fits r has_exited {config = config} e h =
    of_Holds (Fits config) {r = returns has_exited} tt h
worker_round-Fits r (in_interval s) {config = config} e h =
    of_Holds (Fits config) (interval_step-Fits r config s)
      (sym (ap (λ o. o >>= λ c. mode_step r c (in_interval s)) e) ∙ h)
worker_round-Fits r (in_schedule p) {config = config} e h =
    of_Holds (Fits config) (scheduled_step-Fits r config p)
      (sym (ap (λ o. o >>= λ c. mode_step r c (in_schedule p)) e) ∙ h)

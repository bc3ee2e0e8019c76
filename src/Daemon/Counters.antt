-- ===== src/Daemon/Counters.antt =====
-- The counters and the signs of life of the worker of
-- bundled-addons/examples/deprecated/40-chatlogger.py.
use jedi_academy_pterodactyl.Prelude.{
  leb, ◌==◌, if◌then◌else◌, ℕ, ◌+◌, ◌≤◌, ◌≡◌, Bool, true, false, ◌||◌, Option, none, some, List, [],
  ◌∷◌, arith, ltb, refl, ◌&&◌,
}
use jedi_academy_pterodactyl.Text.{Text}
use jedi_academy_pterodactyl.Chat.Writer.{plain_log_name}
use jedi_academy_pterodactyl.Daemon.Retention.{Limits}
use jedi_academy_pterodactyl.Daemon.Worker.{
  WorkerRuntime, maybe_roll_date, Tick, alive, closed_log, Tried, ◌and_then◌, clean, chat_line,
  close_output, open_today, Note, count_line, write_chat, on_tail_line, done, cleanup_interval,
  heartbeat, note, maybe_periodic_cleanup, is_path, append_chat, log_chat, did_return,
}
use jedi_academy_pterodactyl.Python.Json.{Python}
use jedi_academy_pterodactyl.Daemon.Source.{active_server_log_path, daemon_tail_source}
use jedi_academy_pterodactyl.Daemon.Lines.{parse_chat_line, DaemonEntry}

-- The lines that were written to a log and flushed.
unfoldable pub chat_count : List Note → ℕ
chat_count [] = 0
chat_count (chat_line path l ∷ ns) = chat_count ns + 1
chat_count (n ∷ ns) = chat_count ns

-- The times of the signs of life, the last one first.
unfoldable pub beats : List Note → List ℕ
beats [] = []
beats (alive at lines chats ∷ ns) = at ∷ beats ns
beats (n ∷ ns) = beats ns

-- Each time keeps the distance `gap` from the one before it.
unfoldable pub IsSteady : ℕ → List ℕ → Type 0
IsSteady gap [] = Unit
IsSteady gap (b ∷ []) = Unit
IsSteady gap (b ∷ (a ∷ bs)) = (a + gap ≤ b) × IsSteady gap (a ∷ bs)

-- The memory of the last sign of life is the last one.
unfoldable pub IsLast : ℕ → List ℕ → Type 0
IsLast last [] = Unit
IsLast last (b ∷ bs) = b ≡ last

-- `k` more messages may be counted for the lines that were seen.
unfoldable pub IsSound : ℕ → ℕ → WorkerRuntime → Type 0
IsSound gap k s =
    (s.chats_logged + k ≤ s.lines_seen)
    × (s.chats_logged ≡ chat_count s.notes)
    × IsSteady gap (beats s.notes)
    × IsLast s.last_heartbeat (beats s.notes)

pub and_then-All :
    (P Q : WorkerRuntime → Type 0) (t : Tried) (f : WorkerRuntime → Tried)
    → P t.state
    → ((s : WorkerRuntime) → P s → Q s)
    → ((s : WorkerRuntime) → P s → Q (f s).state)
    → Q (t and_then f).state
unfolding ◌and_then◌
and_then-All P Q t f h weaker k = branch t.returned
  where
    branch : (b : Bool) → Q (if b then f t.state else t).state
    branch true = k t.state h
    branch false = weaker t.state h

state-if :
    (P : WorkerRuntime → Type 0) (b : Bool) (t u : Tried)
    → P t.state
    → P u.state
    → P (if b then t else u).state
state-if P true t u h k = h
state-if P false t u h k = k

IsSteady-cons :
    (gap last at : ℕ) (bs : List ℕ)
    → IsSteady gap bs
    → IsLast last bs
    → last + gap ≤ at
    → IsSteady gap (at ∷ bs)
unfolding IsSteady IsLast
IsSteady-cons gap last at [] h k enough = tt
IsSteady-cons gap last at (b ∷ bs) h k enough = (omega (arith, k, enough), h)

module _ (gap k : ℕ) where
  close_output-IsSound : (s : WorkerRuntime) → IsSound gap k s → IsSound gap k (close_output s)
  unfolding close_output IsSound chat_count beats
  close_output-IsSound s h = branch s.output_path
    where
      branch :
          (o : Option Text)
          → IsSound gap k (elim o [
            | none ↦ s
            | some path ↦ record s { output_path = none; notes = closed_log path ∷ s.notes }
          ])
      branch none = h
      branch (some path) = h

  open_today-IsSound :
      (t : Tick) (s : WorkerRuntime) → IsSound gap k s → IsSound gap k (open_today t s).state
  unfolding open_today IsSound chat_count beats
  open_today-IsSound t s h =
      state-if (IsSound gap k) (is_path (plain_log_name t.date_key) s.output_path) _ _ h (
        state-if (IsSound gap k) (t.opens (plain_log_name t.date_key)) _ _
          (close_output-IsSound s h) (close_output-IsSound s h))

  clean-IsSound :
      (limits : Limits) (t : Tick) (s : WorkerRuntime)
      → IsSound gap k s
      → IsSound gap k (clean limits t s).state
  unfolding clean IsSound chat_count beats
  clean-IsSound limits t s h =
      state-if (IsSound gap k) (leb t.date limits.plain_days || leb t.date limits.total_days) _ _ h
        h

  maybe_roll_date-IsSound :
      (limits : Limits) (t : Tick) (s : WorkerRuntime)
      → IsSound gap k s
      → IsSound gap k (maybe_roll_date limits t s).state
  unfolding maybe_roll_date IsSound
  maybe_roll_date-IsSound limits t s h =
      state-if (IsSound gap k) (t.date == s.current_date) _ _ h
        (clean-IsSound limits t _ (close_output-IsSound (record s { current_date = t.date }) h))

module _ (gap : ℕ) where
  IsSound-weaker : (s : WorkerRuntime) → IsSound gap 1 s → IsSound gap 0 s
  unfolding IsSound
  IsSound-weaker s (le, counted, steady, last) = (omega (arith, le), counted, steady, last)

  IsSound-count_line : (s : WorkerRuntime) → IsSound gap 0 s → IsSound gap 1 (count_line s)
  unfolding IsSound
  IsSound-count_line s (le, counted, steady, last) = (omega (arith, le), counted, steady, last)

  -- A message takes one count.
  append_chat-IsSound :
      (t : Tick) (e : DaemonEntry) (s : WorkerRuntime)
      → IsSound gap 1 s
      → IsSound gap 0 (append_chat t e s).state
  unfolding append_chat IsSound chat_count beats
  append_chat-IsSound t e s (le, counted, steady, last) =
      state-if (IsSound gap 0) (t.writes && t.flushes) _ _
        (omega (arith, le), omega (arith, counted), steady, last)
        (state-if (IsSound gap 0) t.writes _ _ (omega (arith, le), counted, steady, last)
          (omega (arith, le), counted, steady, last))

  write_chat-IsSound :
      (limits : Limits) (t : Tick) (e : DaemonEntry) (s : WorkerRuntime)
      → IsSound gap 1 s
      → IsSound gap 0 (write_chat limits t e s).state
  unfolding write_chat
  write_chat-IsSound limits t e s h =
      and_then-All (IsSound gap 1) (IsSound gap 0)
        (maybe_roll_date limits t s and_then open_today t) (append_chat t e)
        (and_then-All (IsSound gap 1) (IsSound gap 1) (maybe_roll_date limits t s) (open_today t)
          (maybe_roll_date-IsSound gap 1 limits t s h) (λ s' k. k) (open_today-IsSound gap 1 t))
        IsSound-weaker (append_chat-IsSound t e)

module _ ⦃py : Python⦄ (gap : ℕ) where
  log_chat-IsSound :
      (limits : Limits) (t : Tick) (o : Option DaemonEntry) (s : WorkerRuntime)
      → IsSound gap 1 s
      → IsSound gap 0 (log_chat limits t o s)
  unfolding log_chat
  log_chat-IsSound limits t none s h = IsSound-weaker gap s h
  log_chat-IsSound limits t (some e) s h = write_chat-IsSound gap limits t e s h

  pub heartbeat-IsSound :
      (t : Tick) (s : WorkerRuntime)
      → IsSound gap 0 s
      → IsSound gap 0 (heartbeat false gap t s).state
  unfolding heartbeat IsSound chat_count beats IsLast
  heartbeat-IsSound t s (le, counted, steady, last) =
      branch (ltb t.monotonic (s.last_heartbeat + gap)) refl
    where
      branch :
          (b : Bool)
          → ltb t.monotonic (s.last_heartbeat + gap) ≡ b
          → IsSound gap 0
              (if b then done s else record {
                state =
                    note
                      (alive t.monotonic s.lines_seen s.chats_logged)
                      (record s { last_heartbeat = t.monotonic });
                returned =
                    did_return (daemon_tail_source t.env)
                    && did_return (active_server_log_path t.env);
              }).state
      branch true e = (le, counted, steady, last)
      branch false e = (
        le,
        counted,
        IsSteady-cons gap s.last_heartbeat t.monotonic (beats s.notes) steady last
            (ground (arith, e)),
        refl,
      )

  pub on_tail_line-IsSound :
      (limits : Limits) (t : Tick) (s : WorkerRuntime)
      → IsSound gap 0 s
      → IsSound gap 0 (on_tail_line limits gap t s).state
  unfolding on_tail_line maybe_periodic_cleanup
  on_tail_line-IsSound limits t s h =
      and_then-All (IsSound gap 0) (IsSound gap 0) (heartbeat false gap t _)
        (maybe_periodic_cleanup limits t)
        (heartbeat-IsSound t _ (
          log_chat-IsSound limits t (parse_chat_line t.now t.raw) (count_line s)
            (IsSound-count_line gap s h)))
        (λ s' h'. h')
        (λ s' h'.
          state-if (IsSound gap 0) (ltb t.monotonic (s'.last_cleanup + cleanup_interval)) _ _ h'
            (clean-IsSound gap 0 limits t s' h'))

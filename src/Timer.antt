-- ===== src/Timer.antt =====
-- src/timer/timer_manager.cpp: the periodic tasks. Times are counts of milliseconds of the steady
-- clock, far below the bound of its type.
pub mod Examples
use cpp_game_room.Base.{
  ◌≤◌, refl, ◌≡◌, if_intro, ltb, arith, Bool-cases, inl, inr, ℕ, ◌+◌, Bool, true, false, not,
  Option, none, some, List, [], ◌∷◌, ◌++◌, leb, ap, ◌∙◌, if◌then◌else◌,
}

-- TimerManager::TimerTask, over the type of callbacks.
pub record TimerTask (C : Type 0) : Type 0 where
  pub interval_ms : ℕ
  pub callback : C
  pub next_run : ℕ

module _ {C : Type 0} where
  unfoldable pub add_timer : ℕ → C → ℕ → List (TimerTask C) → List (TimerTask C)
  add_timer interval_ms callback now tasks =
      tasks
      ++ record { interval_ms = interval_ms; callback = callback; next_run = now + interval_ms }
        ∷ []

  unfoldable pub reschedule : ℕ → TimerTask C → TimerTask C
  reschedule now t = if leb t.next_run now then record t { next_run = now + t.interval_ms } else t

  -- The loop of a round over the tasks under the lock: the tasks after it, and the callbacks that
  -- are called then, in order.
  unfoldable pub run_due : ℕ → List (TimerTask C) → List (TimerTask C) × List C
  unfolding reschedule
  run_due now [] = ([], [])
  run_due now (t ∷ ts) =
      let (ts', due) = run_due now ts in
      (reschedule now t ∷ ts', if leb t.next_run now then t.callback ∷ due else due)

module _ {C : Type 0} (mine : C → Bool) where
  abbrev pub own_tasks : List (TimerTask C) → List (TimerTask C)
  own_tasks [] = []
  own_tasks (t ∷ ts) = let rest = own_tasks ts in if mine t.callback then t ∷ rest else rest

  abbrev own_calls : List C → List C
  own_calls [] = []
  own_calls (c ∷ cs) = let rest = own_calls cs in if mine c then c ∷ rest else rest

abbrev each_at : {C : Type 0} → ℕ → List C → List ℕ → List ℕ
each_at now [] rest = rest
each_at now (c ∷ cs) rest = now ∷ each_at now cs rest

-- The times at which the callbacks that `mine` accepts are called in rounds at the given times,
-- once for each call.
abbrev pub calls : {C : Type 0} → (C → Bool) → List ℕ → List (TimerTask C) → List ℕ
calls mine [] ts = []
calls mine (now ∷ times) ts =
    let (ts', due) = run_due now ts in each_at now (own_calls mine due) (calls mine times ts')

-- The clock does not go back, and a round begins at most `gap` after the one before.
abbrev pub Polls : ℕ → ℕ → List ℕ → Type 0
Polls gap before [] = Unit {0}
Polls gap before (now ∷ times) = (before ≤ now) × (now ≤ before + gap) × Polls gap now times

abbrev pub last_of : ℕ → List ℕ → ℕ
last_of before [] = before
last_of before (now ∷ times) = last_of now times

-- Calls at least `interval` apart, each at most `gap` late, and none missed up to `until`.
abbrev pub Spaced : ℕ → ℕ → ℕ → ℕ → List ℕ → Type 0
Spaced interval gap until last [] = until ≤ last + interval
Spaced interval gap until last (now ∷ times) =
    (last + interval ≤ now) × (now ≤ last + interval + gap) × Spaced interval gap until now times

module _ {C : Type 0} (mine : C → Bool) where
  own_tasks-append :
      (ts us : List (TimerTask C))
      → own_tasks mine (ts ++ us) ≡ own_tasks mine ts ++ own_tasks mine us
  own_tasks-append [] us = refl
  own_tasks-append (t ∷ ts) us = elim (Bool-cases (mine t.callback)) [
    | inl e ↦ rw e (ap (◌∷◌ t) (own_tasks-append ts us))
    | inr e ↦ rw e (own_tasks-append ts us)
  ]

  callback-reschedule : (now : ℕ) (t : TimerTask C) → (reschedule now t).callback ≡ t.callback
  unfolding reschedule
  callback-reschedule now t =
      if_intro (λ (u : TimerTask C). u.callback ≡ t.callback) (leb t.next_run now) (λ _. refl)
        (λ _. refl)

  -- A round treats the tasks one by one, whatever other tasks there are.
  own_tasks-run_due :
      (now : ℕ) (ts : List (TimerTask C))
      → own_tasks mine (run_due now ts).0 ≡ (run_due now (own_tasks mine ts)).0
  unfolding run_due
  own_tasks-run_due now [] = refl
  own_tasks-run_due now (t ∷ ts) = elim (Bool-cases (mine t.callback)) [
    | inl e ↦
        rw (callback-reschedule now t, e) (ap (◌∷◌ (reschedule now t)) (own_tasks-run_due now ts))
    | inr e ↦ rw (callback-reschedule now t, e) (own_tasks-run_due now ts)
  ]

  own_calls-run_due :
      (now : ℕ) (ts : List (TimerTask C))
      → own_calls mine (run_due now ts).1 ≡ (run_due now (own_tasks mine ts)).1
  unfolding run_due
  own_calls-run_due now [] = refl
  own_calls-run_due now (t ∷ ts) =
      let ih = own_calls-run_due now ts in
      elim (Bool-cases (leb t.next_run now)) [
        | inl due ↦ elim (Bool-cases (mine t.callback)) [
          | inl e ↦ rw (due, e, own_calls) (rw due (ap (◌∷◌ t.callback) ih))
          | inr e ↦ rw (due, e, own_calls) ih
        ]
        | inr early ↦ elim (Bool-cases (mine t.callback)) [
          | inl e ↦ rw (early, e) (rw early ih)
          | inr e ↦ rw (early, e) ih
        ]
      ]

module _ {C : Type 0} (gap : ℕ) (mine : C → Bool) (interval : ℕ) (callback : C) where
  abbrev next_at : ℕ → TimerTask C
  next_at time = record { interval_ms = interval; callback = callback; next_run = time }

  calls-Spaced :
      (times : List ℕ) (ts : List (TimerTask C)) (last before : ℕ)
      → own_tasks mine ts ≡ next_at (last + interval) ∷ []
      → before ≤ last + interval
      → Polls gap before times
      → Spaced interval gap (last_of before times) last (calls mine times ts)
  unfolding run_due reschedule
  calls-Spaced [] ts last before only h p = h
  calls-Spaced (now ∷ times) ts last before only h p =
      let kept = own_tasks-run_due mine now ts ∙ ap (λ us. (run_due now us).0) only in
      let due = own_calls-run_due mine now ts ∙ ap (λ us. (run_due now us).1) only in
      elim (Bool-cases (leb (last + interval) now)) [
        | inl reached ↦
            rw (due, reached)
              (
                ground arith,
                ground arith,
                calls-Spaced times (run_due now ts).0 now now
                    (kept
                      ∙ ap
                          (λ b.
                            (if b then next_at (now + interval) else next_at (last + interval))
                            ∷ [])
                          reached)
                    (omega arith) p.2,
              )
        | inr early ↦
            rw (due, early)
              (calls-Spaced times (run_due now ts).0 last now
                (kept
                  ∙ ap
                      (λ b.
                        (if b then next_at (now + interval) else next_at (last + interval)) ∷ [])
                      early)
                (ground arith) p.2)
      ]

  -- A task that is added at the time `start`, whatever other tasks stand before and after it as
  -- long as their callbacks are other ones, with rounds that follow one another within `gap`, is
  -- called again and again: the first call and any two calls that follow one another are at least
  -- the interval and at most the interval and `gap` apart, and no call is outstanding at the end
  -- that was due before the last round.
  pub add_timer-Spaced :
      (times : List ℕ) (earlier later : List (TimerTask C)) (start : ℕ)
      → mine callback ≡ true
      → own_tasks mine earlier ≡ []
      → own_tasks mine later ≡ []
      → Polls gap start times
      → Spaced interval gap
          (last_of start times)
          start
          (calls mine times (add_timer interval callback start earlier ++ later))
  unfolding add_timer
  add_timer-Spaced times earlier later start known none_earlier none_later p =
      calls-Spaced times (add_timer interval callback start earlier ++ later) start start
        (own_tasks-append mine (earlier ++ next_at (start + interval) ∷ []) later
          ∙ rw (
            own_tasks-append mine earlier (next_at (start + interval) ∷ []),
            none_earlier,
            none_later,
            known,
          ))
        (omega arith) p

pub record TimerManager (C : Type 0) : Type 0 where
  pub running : Bool
  pub tasks : List (TimerTask C)

module _ {C : Type 0} where
  -- Start, and whether it makes the thread of Loop.
  unfoldable pub start : TimerManager C → TimerManager C × Bool
  start m = (record m { running = true }, not m.running)

  -- Stop, and whether it waits for the thread.
  unfoldable pub stop : TimerManager C → TimerManager C × Bool
  stop m = (record m { running = false }, m.running)

  -- A round of Loop at the time `now`: the callbacks to call, or `none` when the loop ends.
  unfoldable pub loop_once : ℕ → TimerManager C → TimerManager C × Option (List C)
  unfolding run_due
  loop_once now m =
      let (tasks', due) = run_due now m.tasks in
      if not m.running then (m, none) else (record m { tasks = tasks' }, some due)

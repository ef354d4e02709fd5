-- ===== src/Scheduler/Priorities.antt =====
-- `pick_priority` of src/scheduler.c: what is held back, what goes first, and how long a timer waits.
use tai_ci.Base.{
  ◌+◌, ◌-◌, ◌%◌, ◌≤◌, ◌<◌, ◌≡◌, ◌≢◌, ◌⊎◌, inl, inr, ap, ◌∙◌, Bool, true, false, not, ◌&&◌, List, [],
  ◌∷◌, some, length, arith, if◌then◌else◌, ◌==◌,
}
use tai_ci.Scheduler.Invariant.{queued, Inv}
use tai_ci.Scheduler.{
  Seconds, Priority, render, input, normal, js_timer, Reason, render_ready, fifo_order, input_ready,
  timer_aging, timer_fairness, normal_ready, timer_background, word, Task, Config, Scheduler, queue,
  pop, frame_guard, pick_priority, settle, ran, empty, held_for_frame, tai_scheduler_run_one,
  is_empty, has_aged,
}

module _ (F : Seconds) where
  -- Only timers wait, and the frame guard holds them.
  abbrev pub IsHeld : Scheduler F → F.Time → Type 0
  IsHeld s now =
      (s.render_queue ≡ [])
      × (s.input_queue ≡ [])
      × (s.normal_queue ≡ [])
      × (s.timer_queue ≢ [])
      × (frame_guard F s now ≡ true)

  abbrev pub is_held : Scheduler F → F.Time → Bool
  is_held s now =
      is_empty F s.render_queue
      && is_empty F s.input_queue
      && is_empty F s.normal_queue
      && not (is_empty F s.timer_queue)
      && frame_guard F s now

  -- What the priority policy answers: empty without tasks, held when only timers wait behind the frame guard, ran otherwise.
  pub run_one-result :
      (s : Scheduler F) (now : F.Time)
      → s.config.fifo ≡ false
      → Inv F s
      → queued F s < word
      → (tai_scheduler_run_one F s now).result
        ≡ (if queued F s == 0 then empty else (if is_held s now then held_for_frame else ran))
  unfolding tai_scheduler_run_one pick_priority pop
  run_one-result s now fifo v small = ground (arith, v.counted)

  -- The task was the oldest of its queue.
  abbrev pub Heads : Scheduler F → Priority → Task F → Type 0
  Heads s p task = (l : List (Task F)) × (queue F s p ≡ task ∷ l)

  abbrev pub NoForeground : Scheduler F → Type 0
  NoForeground s = (s.render_queue ≡ []) × (s.input_queue ≡ [])

  -- What each reason says of the state in which its task was chosen.
  abbrev pub Explains : Scheduler F → F.Time → Task F → Reason → Type 0
  Explains s now task fifo_order = ⊥
  Explains s now task render_ready = Heads s render task
  Explains s now task input_ready = (s.render_queue ≡ []) × Heads s input task
  Explains s now task timer_aging =
      NoForeground s
      × (frame_guard F s now ≡ false)
      × (has_aged F s now s.timer_queue ≡ true)
      × Heads s js_timer task
  Explains s now task timer_fairness =
      NoForeground s
      × (frame_guard F s now ≡ false)
      × (s.config.max_foreground_burst ≤ s.foreground_burst)
      × Heads s js_timer task
  Explains s now task normal_ready =
      NoForeground s
      × ((s.timer_queue ≡ [])
          ⊎ (frame_guard F s now ≡ true)
          ⊎ ((has_aged F s now s.timer_queue ≡ false)
              × (s.foreground_burst < s.config.max_foreground_burst)))
      × Heads s normal task
  Explains s now task timer_background =
      NoForeground s × (s.normal_queue ≡ []) × (frame_guard F s now ≡ false) × Heads s js_timer task

  run_one-pick_priority :
      (s : Scheduler F) (now : F.Time)
      → s.config.fifo ≡ false
      → tai_scheduler_run_one F s now ≡ settle F s (pick_priority F s now)
  unfolding tai_scheduler_run_one
  run_one-pick_priority s now fifo = simp fifo

  -- A task runs for a reason that holds of the state, and it is the oldest of its queue: render tasks
  -- first, then input, and a timer only while the frame guard is off.
  pub run_one-Explains :
      (s : Scheduler F) (now : F.Time) (task : Task F) (why : Reason)
      → s.config.fifo ≡ false
      → (tai_scheduler_run_one F s now).task ≡ some (task, why)
      → Explains s now task why
  unfolding pick_priority pop tai_scheduler_run_one
  run_one-Explains s now task fifo_order fifo e = ground arith
  run_one-Explains s now task why fifo e = ground arith

  -- Some call of the sequence runs the task.
  abbrev pub Served : Scheduler F → List F.Time → Task F → Type 0
  Served s [] task = ⊥
  Served s (now ∷ rest) task =
      ((why : Reason) × ((tai_scheduler_run_one F s now).task ≡ some (task, why)))
      ⊎ Served (tai_scheduler_run_one F s now).after rest task

  -- Only normal tasks stand before the oldest timer, `task`.
  pub record IsNext (s : Scheduler F) (task : Task F) : Type 0 where
    pub by_priority : s.config.fifo ≡ false
    pub off_guard : s.frame_armed ≡ false
    pub no_render : s.render_queue ≡ []
    pub no_input : s.input_queue ≡ []
    pub others : List (Task F)
    pub timer : s.timer_queue ≡ task ∷ others

  -- One call in such a state: the oldest timer runs, or a normal task does and the burst is one
  -- longer.
  run_one-burst :
      (s : Scheduler F) (now : F.Time) (task : Task F)
      → IsNext s task
      → let o = tai_scheduler_run_one F s now in
        (o.task ≡ some (task, timer_aging))
        ⊎ (o.task ≡ some (task, timer_fairness))
        ⊎ (o.task ≡ some (task, timer_background))
        ⊎ ((s.foreground_burst < s.config.max_foreground_burst)
            × (o.after.foreground_burst ≡ (s.foreground_burst + 1) % word)
            × (o.after.config ≡ s.config)
            × (o.after.frame_armed ≡ s.frame_armed)
            × (o.after.render_queue ≡ s.render_queue)
            × (o.after.input_queue ≡ s.input_queue)
            × (o.after.timer_queue ≡ s.timer_queue))
  unfolding pick_priority pop tai_scheduler_run_one frame_guard
  run_one-burst s now task h = ground arith

  -- No starvation: while only normal tasks stand before the oldest timer and the frame guard is off,
  -- that timer is run within `max_foreground_burst - foreground_burst + 1` calls, however many normal
  -- tasks wait.
  pub timer-Served :
      (s : Scheduler F) (nows : List F.Time) (task : Task F)
      → IsNext s task
      → s.config.max_foreground_burst < word
      → s.config.max_foreground_burst - s.foreground_burst < length nows
      → Served s nows task
  timer-Served s [] task h small k = absurd (omega arith)
  timer-Served s (now ∷ rest) task h small k = elim (run_one-burst s now task h) [
    | inl served ↦ inl (timer_aging, served)
    | inr (inl served) ↦ inl (timer_fairness, served)
    | inr (inr (inl served)) ↦ inl (timer_background, served)
    | inr (inr (inr m)) ↦ inr (
        timer-Served (tai_scheduler_run_one F s now).after rest task
          (record {
            by_priority = ap (λ (c : Config F). c.fifo) m.2 ∙ h.by_priority;
            off_guard = m.3 ∙ h.off_guard;
            no_render = m.4 ∙ h.no_render;
            no_input = m.5 ∙ h.no_input;
            others = h.others;
            timer = m.6 ∙ h.timer;
          })
          (rw m.2 small) (rw (m.2, m.1) (omega arith)))
  ]

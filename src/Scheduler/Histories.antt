-- ===== src/Scheduler/Histories.antt =====
-- Sequences of calls of src/scheduler.c.
use tai_ci.Base.{
  ℕ, ◌≡◌, refl, Bool, true, List, [], ◌∷◌, Option, none, some, All, arith, Bool-cases, Option-cases,
  inl, inr,
}
use tai_ci.Scheduler.Invariant.{InPlace, Inv, same_queues, enqueue-Inv, run_one-Inv}
use tai_ci.Scheduler.Generations.{set_generation-Inv}
use tai_ci.Scheduler.{
  Seconds, Priority, render, input, normal, js_timer, Config, Scheduler, queue,
  tai_scheduler_create, initial, tai_scheduler_clear, tai_scheduler_schedule,
  tai_scheduler_set_frame_deadline, Call, schedules, runs_one, sets_deadline, sets_generation,
  clears, step, run, to_priority,
}

module _ (F : Seconds) where
  clear-Inv : (s : Scheduler F) → Inv F (tai_scheduler_clear F s).0
  unfolding tai_scheduler_clear
  clear-Inv s = record { counted = omega arith; placed = nothing }
    where
      nothing :
          (p : Priority) → All (InPlace F s.generation p) (queue F (tai_scheduler_clear F s).0 p)
      nothing render = tt
      nothing input = tt
      nothing normal = tt
      nothing js_timer = tt

  schedule-Inv :
      (ok : Bool) (s : Scheduler F) (p g : ℕ) (at : F.Time) (work : Option ℕ)
      → Inv F s
      → Inv F (tai_scheduler_schedule F ok s p g at work).0
  unfolding tai_scheduler_schedule
  schedule-Inv ok s p g at none v = v
  schedule-Inv ok s p g at (some work) v = elim (Option-cases (to_priority p)) [
    | inl e ↦ rw (e, tai_scheduler_schedule) v
    | inr (q, e) ↦ elim (Bool-cases ok) [
      | inl o ↦ rw (e, o, tai_scheduler_schedule) (enqueue-Inv F s q g at work v)
      | inr o ↦ rw (e, o, tai_scheduler_schedule) v
    ]
  ]

  -- Every call keeps the invariant: the counter is right, each task stands in the queue of its
  -- priority, and no task of a cancelled generation is queued F.
  pub step-Inv : (s : Scheduler F) (c : Call F) → Inv F s → Inv F (step F s c)
  unfolding step tai_scheduler_set_frame_deadline
  step-Inv s (schedules p g at work) v = schedule-Inv true s p g at work v
  step-Inv s (runs_one now) v = run_one-Inv F s now v
  step-Inv s (sets_deadline armed deadline) v = record {
    counted = v.counted;
    placed =
        same_queues F (λ q. All (InPlace F s.generation q)) s
          (tai_scheduler_set_frame_deadline F s armed deadline) (refl, refl, refl, refl) v.placed;
  }
  step-Inv s (sets_generation g) v = set_generation-Inv F s g v
  step-Inv s clears v = clear-Inv s

  run-Inv : (s : Scheduler F) (cs : List (Call F)) → Inv F s → Inv F (run F s cs)
  unfolding run
  run-Inv s [] v = v
  run-Inv s (c ∷ cs) v = run-Inv (step F s c) cs (step-Inv s c v)

  pub initial-Inv : (config : Config F) → Inv F (initial F config)
  initial-Inv config = record { counted = refl; placed = nothing }
    where
      nothing : (p : Priority) → All (InPlace F 0 p) (queue F (initial F config) p)
      nothing render = tt
      nothing input = tt
      nothing normal = tt
      nothing js_timer = tt

  -- After any calls on a scheduler that `tai_scheduler_create` made, the invariant holds.
  pub run-create-Inv :
      (ready : Bool) (config : Config F) (s : Scheduler F) (cs : List (Call F))
      → tai_scheduler_create F ready config ≡ some s
      → Inv F (run F s cs)
  unfolding tai_scheduler_create
  run-create-Inv ready config s cs e =
      let made : initial F config ≡ s = ground arith in
      run-Inv s cs (rw made at (initial-Inv config))

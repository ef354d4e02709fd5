-- ===== src/Scheduler/Ordering.antt =====
-- The sequence numbers along the queues of src/scheduler.c.
use tai_ci.Base.{
  ℕ, suc, ◌+◌, ◌-◌, ◌%◌, ◌≤◌, ◌<◌, ◌≡◌, refl, inl, inr, Bool, true, false, List, [], ◌∷◌, ◌++◌,
  none, some, arith, if◌then◌else◌, Bool-cases, Option-cases,
}
use tai_ci.Scheduler.Invariant.{set_queue-placed, same_queues, Inv, rejects}
use tai_ci.Scheduler.Generations.{survives, current_of, swept, set_generation_lem}
use tai_ci.Scheduler.Fifo.{Rising, IsOrdered}
use tai_ci.Scheduler.{
  Seconds, Priority, render, input, normal, js_timer, Reason, word, Task, Scheduler, queue,
  set_queue, Picked, pop, pop_from, burst_after, fifo_choice, pick_fifo, pick_priority, settle,
  tai_scheduler_run_one, enqueue, to_priority, tai_scheduler_schedule, tai_scheduler_clear,
  tai_scheduler_set_generation, tai_scheduler_set_frame_deadline, Call, schedules, runs_one,
  sets_deadline, sets_generation, clears, step,
}

module _ (F : Seconds) where
  Rising-weaken :
      (k low h m : ℕ) (l : List (Task F)) → k ≤ low → h ≤ m → Rising F low h l → Rising F k m l
  Rising-weaken k low h m [] p q r = tt
  Rising-weaken k low h m (task ∷ l) p q r = (
    omega arith,
    omega arith,
    Rising-weaken (suc task.sequence) (suc task.sequence) h m l (omega arith) q r.2,
  )

  Rising-snoc :
      (low h : ℕ) (l : List (Task F)) (task : Task F)
      → low ≤ h
      → Rising F low h l
      → task.sequence ≡ h
      → Rising F low (h + 1) (l ++ task ∷ [])
  Rising-snoc low h [] task p r e = (omega arith, omega arith, tt)
  Rising-snoc low h (x ∷ l) task p r e =
      (r.0, omega arith, Rising-snoc (suc x.sequence) h l task (omega arith) r.2 e)

  Rising-current_of :
      (g low h : ℕ) (l : List (Task F)) → Rising F low h l → Rising F low h (current_of F g l)
  Rising-current_of g low h [] r = tt
  Rising-current_of g low h (task ∷ l) r = elim (Bool-cases (survives g task.generation)) [
    | inl e ↦ rw e (r.0, r.1, Rising-current_of g (suc task.sequence) h l r.2)
    | inr e ↦ rw e (
        Rising-weaken low (suc task.sequence) h h (current_of F g l) (omega arith) (omega arith)
          (Rising-current_of g (suc task.sequence) h l r.2))
  ]

  enqueue-IsOrdered :
      (s : Scheduler F) (p : Priority) (g : ℕ) (at : F.Time) (work : ℕ)
      → s.sequence + 1 < word
      → IsOrdered F s
      → IsOrdered F (enqueue F s p g at work).0
  unfolding enqueue
  enqueue-IsOrdered s p g at work small o = elim (Bool-cases (rejects F s g)) [
    | inl e ↦ rw (e, enqueue) o
    | inr e ↦
        rw (e, enqueue)
          (record {
            rising = rw step_up (
                same_queues F (λ q. Rising F 0 (s.sequence + 1))
                  (set_queue F s p (queue F s p ++ task ∷ []))
                  (record (set_queue F s p (queue F s p ++ task ∷ [])) {
                    sequence = (s.sequence + 1) % word;
                    pending = (s.pending + 1) % word;
                  })
                  (refl, refl, refl, refl)
                  (set_queue-placed F (λ q. Rising F 0 (s.sequence + 1)) s p
                    (queue F s p ++ task ∷ [])
                    (Rising-snoc 0 s.sequence (queue F s p) task (omega arith) (o.rising p) refl)
                    (λ q.
                      Rising-weaken 0 0 s.sequence (s.sequence + 1) (queue F s q) (omega arith)
                        (omega arith) (o.rising q))));
          })
  ]
    where
      step_up : (s.sequence + 1) % word ≡ s.sequence + 1
      step_up = omega arith

      task : Task F
      task = record {
        work = work;
        priority = p;
        generation = g;
        sequence = s.sequence;
        enqueued_at = at;
      }

  abbrev AfterOrdered : Picked F → Type 0
  AfterOrdered none = Unit
  AfterOrdered (some (task, why, rest)) = IsOrdered F rest

  record KeepsOrder (o : Picked F) : Type 0 where
    rest : AfterOrdered o

  pop_from-KeepsOrder :
      (s : Scheduler F) (p : Priority) (why : Reason) (l : List (Task F))
      → queue F s p ≡ l
      → IsOrdered F s
      → KeepsOrder (pop_from F s p why l)
  pop_from-KeepsOrder s p why [] e o = record { rest = tt }
  pop_from-KeepsOrder s p why (task ∷ rest) e o = record {
    rest = record {
      rising =
          same_queues F (λ q. Rising F 0 s.sequence) (set_queue F s p rest)
            (record (set_queue F s p rest) {
              pending = (s.pending + word - 1) % word;
              foreground_burst = burst_after F s p;
            })
            (refl, refl, refl, refl)
            (set_queue-placed F (λ q. Rising F 0 s.sequence) s p rest
              (let h : Rising F 0 s.sequence (task ∷ rest) = rw e at (o.rising p) in
                Rising-weaken 0 (suc task.sequence) s.sequence s.sequence rest (omega arith)
                  (omega arith) h.2)
              o.rising);
    };
  }

  none-KeepsOrder : KeepsOrder none
  none-KeepsOrder = record { rest = tt }

  pop-KeepsOrder :
      (s : Scheduler F) (p : Priority) (why : Reason) → IsOrdered F s → KeepsOrder (pop F s p why)
  unfolding pop
  pop-KeepsOrder s p why o = pop_from-KeepsOrder s p why (queue F s p) refl o

  if-KeepsOrder :
      (b : Bool) {x y : Picked F} → KeepsOrder x → KeepsOrder y → KeepsOrder (if b then x else y)
  if-KeepsOrder true h k = h
  if-KeepsOrder false h k = k

  pick_fifo-KeepsOrder : (s : Scheduler F) → IsOrdered F s → KeepsOrder (pick_fifo F s)
  unfolding pick_fifo
  pick_fifo-KeepsOrder s o = elim (Option-cases (fifo_choice F s)) [
    | inl e ↦ rw (e, pick_fifo) none-KeepsOrder
    | inr (best, e) ↦ rw (e, pick_fifo) (pop-KeepsOrder s best.1 _ o)
  ]

  pick_priority-KeepsOrder :
      (s : Scheduler F) (now : F.Time) → IsOrdered F s → KeepsOrder (pick_priority F s now)
  unfolding pick_priority
  pick_priority-KeepsOrder s now o = search (if-KeepsOrder, pop-KeepsOrder, none-KeepsOrder) depth 8

  settle-IsOrdered :
      (s : Scheduler F) (o : Picked F)
      → IsOrdered F s
      → KeepsOrder o
      → IsOrdered F (settle F s o).after
  settle-IsOrdered s none v h = v
  settle-IsOrdered s (some (task, why, rest)) v h = h.rest

  set_generation-IsOrdered :
      (s : Scheduler F) (g : ℕ)
      → Inv F s
      → IsOrdered F s
      → IsOrdered F (tai_scheduler_set_generation F s g).0
  set_generation-IsOrdered s g v o = rw (set_generation_lem F s g v) (record { rising = kept })
    where
      kept : (p : Priority) → Rising F 0 s.sequence (queue F (swept F s g) p)
      kept render = Rising-current_of g 0 s.sequence s.render_queue (o.rising render)
      kept input = Rising-current_of g 0 s.sequence s.input_queue (o.rising input)
      kept normal = Rising-current_of g 0 s.sequence s.normal_queue (o.rising normal)
      kept js_timer = Rising-current_of g 0 s.sequence s.timer_queue (o.rising js_timer)

  clear-IsOrdered : (s : Scheduler F) → IsOrdered F (tai_scheduler_clear F s).0
  unfolding tai_scheduler_clear
  clear-IsOrdered s = record { rising = nothing }
    where
      nothing : (p : Priority) → Rising F 0 s.sequence (queue F (tai_scheduler_clear F s).0 p)
      nothing render = tt
      nothing input = tt
      nothing normal = tt
      nothing js_timer = tt

  -- Every call keeps the sequence numbers rising along each queue, unless the 64-bit counter wraps.
  pub step-IsOrdered :
      (s : Scheduler F) (c : Call F)
      → s.sequence + 1 < word
      → Inv F s
      → IsOrdered F s
      → IsOrdered F (step F s c)
  unfolding step tai_scheduler_schedule tai_scheduler_run_one tai_scheduler_set_frame_deadline
  step-IsOrdered s (schedules p g at none) small v o = o
  step-IsOrdered s (schedules p g at (some work)) small v o = elim (Option-cases (to_priority p)) [
    | inl e ↦ rw (e, step, tai_scheduler_schedule) o
    | inr (q, e) ↦ rw (e, step, tai_scheduler_schedule) (enqueue-IsOrdered s q g at work small o)
  ]
  step-IsOrdered s (runs_one now) small v o =
      settle-IsOrdered s _ o
        (if-KeepsOrder s.config.fifo (pick_fifo-KeepsOrder s o) (pick_priority-KeepsOrder s now o))
  step-IsOrdered s (sets_deadline armed deadline) small v o = record {
    rising =
        same_queues F (λ q. Rising F 0 s.sequence) s
          (tai_scheduler_set_frame_deadline F s armed deadline) (refl, refl, refl, refl) o.rising;
  }
  step-IsOrdered s (sets_generation g) small v o = set_generation-IsOrdered s g v o
  step-IsOrdered s clears small v o = clear-IsOrdered s

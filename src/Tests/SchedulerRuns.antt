-- ===== src/Tests/SchedulerRuns.antt =====
-- Runs of src/scheduler.c, with times counted in whole ticks.
use tai_ci.Base.{
  ℕ, ◌-◌, ◌≡◌, refl, Bool, true, false, List, [], ◌∷◌, ◌++◌, some, arith, ltb, leb, ◌==◌,
  if◌then◌else◌,
}
use mathlib.Core.List.{reverse}
use tai_ci.Scheduler.Invariant.{Inv, queued}
use tai_ci.Scheduler.Generations.{stale_of, swept, set_generation_lem}
use tai_ci.Scheduler.Histories.{step-Inv, run-create-Inv}
use tai_ci.Scheduler.Fifo.{IsOrdered, Rising, RanOldest, run_one-RanOldest}
use tai_ci.Scheduler.Ordering.{step-IsOrdered}
use tai_ci.Scheduler.Priorities.{
  is_held, Explains, run_one-result, run_one-Explains, Served, timer-Served,
}
use tai_ci.Scheduler.{
  Seconds, Priority, render, input, normal, js_timer, normal_ready, Task, Config, Scheduler, queue,
  initial, tai_scheduler_create, enqueue, tai_scheduler_schedule, to_priority, pop, pick_fifo,
  fifo_choice, frame_guard, pick_priority, tai_scheduler_run_one, empty, held_for_frame, ran, sweep,
  tai_scheduler_set_generation, tai_scheduler_set_frame_deadline, tai_scheduler_clear, Call,
  schedules, sets_generation, step, run,
}

program : Unit {0}
unfolding tai_scheduler_create enqueue tai_scheduler_schedule to_priority pop pick_fifo fifo_choice
    frame_guard pick_priority tai_scheduler_run_one sweep tai_scheduler_set_generation
    tai_scheduler_set_frame_deadline tai_scheduler_clear step run
program = tt

abbrev ticks : Seconds
ticks = record { Time = ℕ; zero_seconds = 0; minus = λ a b. a - b; before = ltb; at_most = leb }

abbrev config : Bool → Config ticks
config fifo = record {
  fifo = fifo;
  starvation_seconds = 50;
  max_foreground_burst = 2;
  frame_guard_seconds = 4;
}

-- A normal task, then a timer, then another normal task.
abbrev calls : List (Call ticks)
calls =
    schedules 2 0 10 (some 100)
    ∷ schedules 3 0 11 (some 101)
    ∷ schedules 2 7 12 (some 9)
    ∷ schedules 2 0 12 (some 102)
    ∷ []

abbrev task : ℕ → Priority → ℕ → ℕ → Task ticks
task work p sequence at = record {
  work = work;
  priority = p;
  generation = 0;
  sequence = sequence;
  enqueued_at = at;
}

abbrev busy : Bool → Scheduler ticks
busy fifo = record (initial ticks (config fifo)) {
  normal_queue = task 100 normal 0 10 ∷ task 102 normal 2 12 ∷ [];
  timer_queue = task 101 js_timer 1 11 ∷ [];
  sequence = 3;
  pending = 3;
}

-- The task of generation 7 is refused.
calls-busy : (fifo : Bool) → run ticks (initial ticks (config fifo)) calls ≡ busy fifo
unfolding program
calls-busy fifo = refl

run-create-Inv_example : Inv ticks (run ticks (initial ticks (config true)) calls)
unfolding tai_scheduler_create
run-create-Inv_example =
    run-create-Inv ticks true (config true) (initial ticks (config true)) calls refl

busy-Inv : (fifo : Bool) → Inv ticks (busy fifo)
busy-Inv fifo = rw calls-busy at (
    run-create-Inv ticks true (config fifo) (initial ticks (config fifo)) calls
      (unfold tai_scheduler_create in created fifo))
  where
    created :
        (fifo : Bool)
        → tai_scheduler_create ticks true (config fifo) ≡ some (initial ticks (config fifo))
    created fifo = unfold tai_scheduler_create in refl

step-Inv_example : Inv ticks (step ticks (busy true) (sets_generation 5))
step-Inv_example = step-Inv ticks (busy true) (sets_generation 5) (busy-Inv true)

busy-IsOrdered : (fifo : Bool) → IsOrdered ticks (busy fifo)
busy-IsOrdered fifo = record { rising = rise }
  where
    rise : (p : Priority) → Rising ticks 0 3 (queue ticks (busy fifo) p)
    rise render = tt
    rise input = tt
    rise normal = omega arith
    rise js_timer = omega arith

step-IsOrdered_example : IsOrdered ticks (step ticks (busy true) (schedules 1 0 13 (some 103)))
step-IsOrdered_example =
    step-IsOrdered ticks (busy true) (schedules 1 0 13 (some 103)) (omega arith) (busy-Inv true)
      (busy-IsOrdered true)

run_one-RanOldest_example :
    RanOldest ticks (busy true) (tai_scheduler_run_one ticks (busy true) 20).task
run_one-RanOldest_example = run_one-RanOldest ticks (busy true) 20 refl (busy-IsOrdered true)

set_generation_lem_example : tai_scheduler_set_generation ticks (busy true) 5 ≡ (
  swept ticks (busy true) 5,
  reverse (stale_of ticks 5 (busy true).timer_queue)
      ++ (reverse (stale_of ticks 5 (busy true).normal_queue)
          ++ (reverse (stale_of ticks 5 (busy true).input_queue)
              ++ (reverse (stale_of ticks 5 (busy true).render_queue) ++ []))),
)
set_generation_lem_example = set_generation_lem ticks (busy true) 5 (busy-Inv true)

run_one-result_example : (tai_scheduler_run_one ticks (busy false) 20).result ≡ (
    if queued ticks (busy false) == 0
    then empty
    else (if is_held ticks (busy false) 20 then held_for_frame else ran))
run_one-result_example = run_one-result ticks (busy false) 20 refl (busy-Inv false) (omega arith)

run_one-Explains_example : Explains ticks (busy false) 20 (task 100 normal 0 10) normal_ready
unfolding program
run_one-Explains_example =
    run_one-Explains ticks (busy false) 20 (task 100 normal 0 10) normal_ready refl refl

timer-Served_example : Served ticks (busy false) (20 ∷ 21 ∷ 22 ∷ []) (task 101 js_timer 1 11)
timer-Served_example =
    timer-Served ticks (busy false) (20 ∷ 21 ∷ 22 ∷ []) (task 101 js_timer 1 11)
      (record {
        by_priority = refl;
        off_guard = refl;
        no_render = refl;
        no_input = refl;
        others = [];
        timer = refl;
      })
      (omega arith) (omega arith)

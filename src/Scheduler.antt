-- ===== src/Scheduler.antt =====
-- src/scheduler.c: four queues of tasks under one mutex. Every public function is one critical
-- section, so it is one function from state to state; the linked lists are lists, oldest first.
-- Times are C doubles: their type and its operations are the parameter `F`. A task's function with
-- its userdata is a number that stands for the work. Callbacks run after the state is unlocked.
pub mod Invariant
pub mod Generations
pub mod Histories
pub mod Fifo
pub mod Ordering
pub mod Priorities
use tai_ci.Base.{
  ℕ, zero, suc, ◌+◌, ◌-◌, ◌%◌, Bool, true, false, not, ◌&&◌, ◌||◌, List, [], ◌∷◌, ◌++◌, Option,
  none, some, ltb, leb, ◌==◌, if◌then◌else◌,
}

-- double, its subtraction and its comparisons.
pub record Seconds : Type 1 where
  pub Time : Type 0
  pub zero_seconds : Time
  pub minus : Time → Time → Time
  pub before : Time → Time → Bool
  pub at_most : Time → Time → Bool

-- 2 ^ 64, the modulus of uint64_t and of size_t.
abbrev pub word : ℕ
word = 18446744073709551616

pub data Priority : Type 0 where
  render input normal js_timer : Priority

-- An argument of the enumeration's unsigned type.
unfoldable pub to_priority : ℕ → Option Priority
to_priority n =
    if n == 0
    then some render
    else if n == 1
    then some input
    else if n == 2
    then some normal
    else if n == 3
    then some js_timer
    else none

pub data Reason : Type 0 where
  fifo_order render_ready input_ready timer_aging timer_fairness normal_ready : Reason
  timer_background : Reason

pub data Result : Type 0 where
  empty held_for_frame ran : Result

module _ (F : Seconds) where
  open F use {Time, zero_seconds, minus, before, at_most}

  pub record Task : Type 0 where
    pub work : ℕ
    pub priority : Priority
    pub generation : ℕ
    pub sequence : ℕ
    pub enqueued_at : Time

  pub record Config : Type 0 where
    pub fifo : Bool
    pub starvation_seconds : Time
    pub max_foreground_burst : ℕ
    pub frame_guard_seconds : Time

  pub record Scheduler : Type 0 where
    pub render_queue : List Task
    pub input_queue : List Task
    pub normal_queue : List Task
    pub timer_queue : List Task
    pub config : Config
    pub sequence : ℕ
    pub generation : ℕ
    pub pending : ℕ
    pub foreground_burst : ℕ
    pub frame_armed : Bool
    pub frame_deadline : Time

  abbrev pub queue : Scheduler → Priority → List Task
  queue s render = s.render_queue
  queue s input = s.input_queue
  queue s normal = s.normal_queue
  queue s js_timer = s.timer_queue

  abbrev pub set_queue : Scheduler → Priority → List Task → Scheduler
  set_queue s p q = record s {
    render_queue = elim p [ render ↦ q | _ ↦ s.render_queue ];
    input_queue = elim p [ input ↦ q | _ ↦ s.input_queue ];
    normal_queue = elim p [ normal ↦ q | _ ↦ s.normal_queue ];
    timer_queue = elim p [ js_timer ↦ q | _ ↦ s.timer_queue ];
  }

  abbrev pub initial : Config → Scheduler
  initial config = record {
    render_queue = [];
    input_queue = [];
    normal_queue = [];
    timer_queue = [];
    config = config;
    sequence = 0;
    generation = 0;
    pending = 0;
    foreground_burst = 0;
    frame_armed = false;
    frame_deadline = zero_seconds;
  }

  -- `ready` says whether calloc and pthread_mutex_init succeed.
  unfoldable pub tai_scheduler_create : Bool → Config → Option Scheduler
  tai_scheduler_create ready config =
      if before config.starvation_seconds zero_seconds
        || before config.frame_guard_seconds zero_seconds
        || config.max_foreground_burst == 0
      then none
      else if ready
      then some (initial config)
      else none

  -- The new state and the tasks whose userdata is destroyed, in that order.
  unfoldable pub tai_scheduler_clear : Scheduler → Scheduler × List Task
  tai_scheduler_clear s = (
    record s {
      render_queue = [];
      input_queue = [];
      normal_queue = [];
      timer_queue = [];
      pending = 0;
      foreground_burst = 0;
    },
    s.timer_queue ++ (s.normal_queue ++ (s.input_queue ++ s.render_queue)),
  )

  -- The critical section of `tai_scheduler_schedule`, on arguments that its first test accepts.
  unfoldable pub enqueue : Scheduler → Priority → ℕ → Time → ℕ → Scheduler × Bool
  enqueue s priority generation enqueued_at work =
      if not (generation == 0) && not (generation == s.generation) then (s, false) else (
        record (set_queue s priority (queue s priority ++ task ∷ [])) {
          sequence = (s.sequence + 1) % word;
          pending = (s.pending + 1) % word;
        },
        true,
      )
    where
      task : Task
      task = record {
        work = work;
        priority = priority;
        generation = generation;
        sequence = s.sequence;
        enqueued_at = enqueued_at;
      }

  -- `function` is `none` for a NULL function; `calloc_ok` says whether the task can be allocated.
  unfoldable pub tai_scheduler_schedule :
      Bool → Scheduler → ℕ → ℕ → Time → Option ℕ → Scheduler × Bool
  tai_scheduler_schedule calloc_ok s priority generation enqueued_at none = (s, false)
  tai_scheduler_schedule calloc_ok s priority generation enqueued_at (some work) =
      elim (to_priority priority) [
        | none ↦ (s, false)
        | some p ↦ if calloc_ok then enqueue s p generation enqueued_at work else (s, false)
      ]

  abbrev pub Picked : Type 0
  Picked = Option (Task × Reason × Scheduler)

  abbrev pub burst_after : Scheduler → Priority → ℕ
  burst_after s js_timer = 0
  burst_after s p = (s.foreground_burst + 1) % word

  abbrev pub pop_from : Scheduler → Priority → Reason → List Task → Picked
  pop_from s priority why [] = none
  pop_from s priority why (task ∷ rest) = some (
    task,
    why,
    record (set_queue s priority rest) {
      pending = (s.pending + word - 1) % word;
      foreground_burst = burst_after s priority;
    },
  )

  unfoldable pub pop : Scheduler → Priority → Reason → Picked
  pop s priority why = pop_from s priority why (queue s priority)

  -- One round of `pick_fifo`'s loop: `found`, `sequence` and `selected` are the option.
  abbrev pub earlier : List Task → Priority → Option (ℕ × Priority) → Option (ℕ × Priority)
  earlier [] p best = best
  earlier (head ∷ _) p none = some (head.sequence, p)
  earlier (head ∷ _) p (some (sequence, selected)) =
      if ltb head.sequence sequence then some (head.sequence, p) else some (sequence, selected)

  unfoldable pub fifo_choice : Scheduler → Option (ℕ × Priority)
  fifo_choice s = earlier s.timer_queue js_timer (
      earlier s.normal_queue normal
        (earlier s.input_queue input (earlier s.render_queue render none)))

  unfoldable pub pick_fifo : Scheduler → Picked
  pick_fifo s = elim (fifo_choice s) [
    | none ↦ none
    | some (sequence, selected) ↦ pop s selected fifo_order
  ]

  unfoldable pub frame_guard : Scheduler → Time → Bool
  frame_guard s now =
      s.frame_armed && at_most (minus s.frame_deadline now) s.config.frame_guard_seconds

  abbrev pub is_empty : List Task → Bool
  is_empty [] = true
  is_empty (task ∷ rest) = false

  -- The tests on the oldest timer.
  abbrev pub has_aged : Scheduler → Time → List Task → Bool
  has_aged s now [] = false
  has_aged s now (timer ∷ _) = at_most s.config.starvation_seconds (minus now timer.enqueued_at)

  unfoldable pub pick_priority : Scheduler → Time → Picked
  pick_priority s now =
      let guarded = frame_guard s now in
      let timer = not (is_empty s.timer_queue) in
      if not (is_empty s.render_queue)
      then pop s render render_ready
      else if not (is_empty s.input_queue)
      then pop s input input_ready
      else if timer && not guarded && has_aged s now s.timer_queue
      then pop s js_timer timer_aging
      else if timer && not guarded && leb s.config.max_foreground_burst s.foreground_burst
      then pop s js_timer timer_fairness
      else if not (is_empty s.normal_queue)
      then pop s normal normal_ready
      else if timer && not guarded
      then pop s js_timer timer_background
      else none

  -- The result, the task that is run with the reason for it, and the state that the task finds.
  pub record Outcome : Type 0 where
    pub result : Result
    pub task : Option (Task × Reason)
    pub after : Scheduler

  abbrev pub settle : Scheduler → Picked → Outcome
  settle s none = record {
    result = if s.pending == 0 then empty else held_for_frame;
    task = none;
    after = s;
  }
  settle s (some (task, why, rest)) = record { result = ran; task = some (task, why); after = rest }

  unfoldable pub tai_scheduler_run_one : Scheduler → Time → Outcome
  tai_scheduler_run_one s now =
      settle s (if s.config.fifo then pick_fifo s else pick_priority s now)

  unfoldable pub tai_scheduler_set_frame_deadline : Scheduler → Bool → Time → Scheduler
  tai_scheduler_set_frame_deadline s armed deadline = record s {
    frame_armed = armed;
    frame_deadline = deadline;
  }

  abbrev pub is_current : ℕ → Task → Bool
  is_current generation task = task.generation == 0 || task.generation == generation

  -- The walk over one queue: the kept tasks in order, `pending`, and the discarded tasks, last first.
  unfoldable pub sweep : ℕ → List Task → List Task → ℕ → List Task → (List Task × ℕ × List Task)
  sweep generation [] kept pending discarded = (kept, pending, discarded)
  sweep generation (task ∷ rest) kept pending discarded =
      let keep = is_current generation task in
      sweep generation rest (if keep then kept ++ task ∷ [] else kept)
        (if keep then pending else (pending + word - 1) % word)
        (if keep then discarded else task ∷ discarded)

  unfoldable pub tai_scheduler_set_generation : Scheduler → ℕ → Scheduler × List Task
  tai_scheduler_set_generation s generation =
      let (r, p₁, d₁) = sweep generation s.render_queue [] s.pending [] in
      let (i, p₂, d₂) = sweep generation s.input_queue [] p₁ d₁ in
      let (n, p₃, d₃) = sweep generation s.normal_queue [] p₂ d₂ in
      let (t, p₄, d₄) = sweep generation s.timer_queue [] p₃ d₃ in
      (
        record s {
          render_queue = r;
          input_queue = i;
          normal_queue = n;
          timer_queue = t;
          generation = generation;
          pending = p₄;
        },
        d₄,
      )

  -- One call of the public interface, and the state that it leaves.
  pub data Call : Type 0 where
    schedules : ℕ → ℕ → Time → Option ℕ → Call
    runs_one : Time → Call
    sets_deadline : Bool → Time → Call
    sets_generation : ℕ → Call
    clears : Call

  unfoldable pub step : Scheduler → Call → Scheduler
  step s (schedules priority generation at work) =
      (tai_scheduler_schedule true s priority generation at work).0
  step s (runs_one now) = (tai_scheduler_run_one s now).after
  step s (sets_deadline armed deadline) = tai_scheduler_set_frame_deadline s armed deadline
  step s (sets_generation generation) = (tai_scheduler_set_generation s generation).0
  step s clears = (tai_scheduler_clear s).0

  unfoldable pub run : Scheduler → List Call → Scheduler
  run s [] = s
  run s (c ∷ cs) = run (step s c) cs

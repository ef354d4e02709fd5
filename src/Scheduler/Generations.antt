-- ===== src/Scheduler/Generations.antt =====
-- `tai_scheduler_set_generation` of src/scheduler.c: what leaves, what stays and in which order.
use mathlib.Core.List.{append_assoc, append-nil, reverse, reverse-cons}
use tai_ci.Base.{
  ℕ, zero, suc, Bool, true, ◌||◌, ◌==◌, ◌+◌, ◌-◌, ◌%◌, ◌≡◌, refl, sym, ◌∙◌, List, [], ◌∷◌, ◌++◌,
  All, length, arith, if◌then◌else◌, Bool-cases, inl, inr,
}
use tai_ci.Scheduler.Invariant.{InPlace, Inv}
use tai_ci.Scheduler.{
  Seconds, Priority, render, input, normal, js_timer, word, Task, Scheduler, queue, is_current,
  sweep, tai_scheduler_set_generation,
}

-- A task of generation 0 belongs to no page, and is never cancelled.
abbrev pub survives : ℕ → ℕ → Bool
survives g zero = true
survives g (suc n) = suc n == g

module _ (F : Seconds) where
  survives_lem : (g : ℕ) (task : Task F) → is_current F g task ≡ survives g task.generation
  survives_lem g task = by_generation task.generation
    where
      by_generation : (n : ℕ) → (n == 0 || n == g) ≡ survives g n
      by_generation zero = refl
      by_generation (suc n) = ground arith

  abbrev pub current_of : ℕ → List (Task F) → List (Task F)
  current_of g [] = []
  current_of g (task ∷ l) =
      if survives g task.generation then task ∷ current_of g l else current_of g l

  abbrev pub stale_of : ℕ → List (Task F) → List (Task F)
  stale_of g [] = []
  stale_of g (task ∷ l) = if survives g task.generation then stale_of g l else task ∷ stale_of g l

  -- The walk keeps the current tasks in order and stacks the others.
  pub sweep-kept :
      (g : ℕ) (l kept : List (Task F)) (n : ℕ) (d : List (Task F))
      → (sweep F g l kept n d).0 ≡ kept ++ current_of g l
  unfolding sweep
  sweep-kept g [] kept n d = sym (append-nil kept)
  sweep-kept g (task ∷ l) kept n d = elim (Bool-cases (survives g task.generation)) [
    | inl e ↦
        rw (survives_lem g task ∙ e, e, sweep)
          (sweep-kept g l (kept ++ task ∷ []) n d ∙ append_assoc kept (task ∷ []) _)
    | inr e ↦ rw (survives_lem g task ∙ e, e, sweep) (sweep-kept g l kept _ (task ∷ d))
  ]

  pub sweep-pending :
      (g : ℕ) (l kept : List (Task F)) (n others : ℕ) (d : List (Task F))
      → n ≡ (length l + others) % word
      → (sweep F g l kept n d).1 ≡ (length (current_of g l) + others) % word
  unfolding sweep
  sweep-pending g [] kept n others d e = e
  sweep-pending g (task ∷ l) kept n others d e = elim (Bool-cases (survives g task.generation)) [
    | inl c ↦
        rw (survives_lem g task ∙ c, c, sweep)
          (sweep-pending g l (kept ++ task ∷ []) n (others + 1) d (omega arith) ∙ omega arith)
    | inr c ↦
        rw (survives_lem g task ∙ c, c, sweep)
          (sweep-pending g l kept ((n + word - 1) % word) others (task ∷ d) (omega arith))
  ]

  pub sweep-discarded :
      (g : ℕ) (l kept : List (Task F)) (n : ℕ) (d : List (Task F))
      → (sweep F g l kept n d).2 ≡ reverse (stale_of g l) ++ d
  unfolding sweep
  sweep-discarded g [] kept n d = refl
  sweep-discarded g (task ∷ l) kept n d = elim (Bool-cases (survives g task.generation)) [
    | inl e ↦ rw (survives_lem g task ∙ e, e, sweep) (sweep-discarded g l (kept ++ task ∷ []) n d)
    | inr e ↦
        rw (survives_lem g task ∙ e, e, sweep)
          (sweep-discarded g l kept ((n + word - 1) % word) (task ∷ d)
            ∙ sym (
                rw (reverse-cons task (stale_of g l))
                  (append_assoc (reverse (stale_of g l)) (task ∷ []) d)))
  ]

  current_of-InPlace :
      (h g : ℕ) (p : Priority) (l : List (Task F))
      → All (InPlace F h p) l
      → All (InPlace F g p) (current_of g l)
  current_of-InPlace h g p [] a = tt
  current_of-InPlace h g p (task ∷ l) a = elim (Bool-cases (survives g task.generation)) [
    | inl e ↦ rw e ((a.0.0, survives_lem g task ∙ e), current_of-InPlace h g p l a.1)
    | inr e ↦ rw e (current_of-InPlace h g p l a.1)
  ]

  sweep_lem :
      (g : ℕ) (l : List (Task F)) (n others : ℕ) (d : List (Task F))
      → n ≡ (length l + others) % word
      → sweep F g l [] n d
        ≡ (current_of g l, (length (current_of g l) + others) % word, reverse (stale_of g l) ++ d)
  sweep_lem g l n others d e = λ i.
      (sweep-kept g l [] n d i, sweep-pending g l [] n others d e i, sweep-discarded g l [] n d i)

  abbrev pub swept : Scheduler F → ℕ → Scheduler F
  swept s g = record s {
    render_queue = current_of g s.render_queue;
    input_queue = current_of g s.input_queue;
    normal_queue = current_of g s.normal_queue;
    timer_queue = current_of g s.timer_queue;
    generation = g;
    pending =
        (length (current_of g s.timer_queue)
          + (length (current_of g s.render_queue)
              + length (current_of g s.input_queue)
              + length (current_of g s.normal_queue)))
        % word;
  }

  -- Exactly the tasks whose generation is neither 0 nor the new one leave, each queue keeps the order
  -- of the others, the count is right, and the tasks that left are destroyed timers first, the youngest
  -- of each first.
  pub set_generation_lem :
      (s : Scheduler F) (g : ℕ)
      → Inv F s
      → tai_scheduler_set_generation F s g ≡ (
        swept s g,
        reverse (stale_of g s.timer_queue)
            ++ (reverse (stale_of g s.normal_queue)
                ++ (reverse (stale_of g s.input_queue)
                    ++ (reverse (stale_of g s.render_queue) ++ []))),
      )
  unfolding tai_scheduler_set_generation
  set_generation_lem s g v =
      let r = length (current_of g s.render_queue) in
      let i = length (current_of g s.input_queue) in
      let n = length (current_of g s.normal_queue) in
      let i₀ = length s.input_queue in
      let n₀ = length s.normal_queue in
      let t₀ = length s.timer_queue in
      let d₁ = reverse (stale_of g s.render_queue) ++ [] in
      let d₂ = reverse (stale_of g s.input_queue) ++ d₁ in
      let d₃ = reverse (stale_of g s.normal_queue) ++ d₂ in
      rw (
        sweep_lem g s.render_queue s.pending (i₀ + n₀ + t₀) [] (omega (arith, v.counted)),
        sweep_lem g s.input_queue ((r + (i₀ + n₀ + t₀)) % word) (r + n₀ + t₀) d₁ (omega arith),
        sweep_lem g s.normal_queue ((i + (r + n₀ + t₀)) % word) (r + i + t₀) d₂ (omega arith),
        sweep_lem g s.timer_queue ((n + (r + i + t₀)) % word) (r + i + n) d₃ (omega arith),
      )

  pub set_generation-Inv :
      (s : Scheduler F) (g : ℕ) → Inv F s → Inv F (tai_scheduler_set_generation F s g).0
  set_generation-Inv s g v =
      rw (set_generation_lem s g v) (record { counted = omega arith; placed = kept })
    where
      kept : (p : Priority) → All (InPlace F g p) (queue F (swept s g) p)
      kept render = current_of-InPlace s.generation g render s.render_queue (v.placed render)
      kept input = current_of-InPlace s.generation g input s.input_queue (v.placed input)
      kept normal = current_of-InPlace s.generation g normal s.normal_queue (v.placed normal)
      kept js_timer = current_of-InPlace s.generation g js_timer s.timer_queue (v.placed js_timer)

-- ===== src/Scheduler/Fifo.antt =====
-- `pick_fifo` of src/scheduler.c: which task a call takes in FIFO mode.
use tai_ci.Base.{
  ℕ, suc, ◌≤◌, ◌<◌, ◌≡◌, refl, inl, inr, true, List, [], ◌∷◌, Option, none, some, arith, Bool-cases,
  ltb,
}
use tai_ci.Scheduler.{
  Seconds, Priority, render, input, normal, js_timer, Reason, Task, Scheduler, queue, pop, earlier,
  fifo_choice, pick_fifo, tai_scheduler_run_one, settle,
}

module _ (F : Seconds) where
  -- Sequence numbers rise along a queue, from `low` on and below `high`.
  abbrev pub Rising : ℕ → ℕ → List (Task F) → Type 0
  Rising low high [] = Unit
  Rising low high (task ∷ l) =
      (low ≤ task.sequence) × (task.sequence < high) × Rising (suc task.sequence) high l

  abbrev pub NotBefore : ℕ → List (Task F) → Type 0
  NotBefore n [] = Unit
  NotBefore n (task ∷ l) = (n ≤ task.sequence) × NotBefore n l

  Rising-NotBefore :
      (n low high : ℕ) (l : List (Task F)) → n ≤ low → Rising low high l → NotBefore n l
  Rising-NotBefore n low high [] h r = tt
  Rising-NotBefore n low high (task ∷ l) h r =
      (omega arith, Rising-NotBefore n (suc task.sequence) high l (omega arith) r.2)

  NotBefore-le : (m n : ℕ) (l : List (Task F)) → m ≤ n → NotBefore n l → NotBefore m l
  NotBefore-le m n [] h a = tt
  NotBefore-le m n (task ∷ l) h a = (omega arith, NotBefore-le m n l h a.1)

  -- `best` is not younger than any task of `l`.
  abbrev Covers : Option (ℕ × Priority) → List (Task F) → Type 0
  Covers none l = l ≡ []
  Covers (some (n, p)) l = NotBefore n l

  earlier-Covers_new :
      (l : List (Task F)) (p : Priority) (best : Option (ℕ × Priority)) (high : ℕ)
      → Rising 0 high l
      → Covers (earlier F l p best) l
  earlier-Covers_new [] p none high r = refl
  earlier-Covers_new [] p (some (n, q)) high r = tt
  earlier-Covers_new (task ∷ l) p none high r =
      Rising-NotBefore task.sequence task.sequence high (task ∷ l) (omega arith)
        (omega arith, r.1, r.2)
  earlier-Covers_new (task ∷ l) p (some (n, q)) high r =
      let own =
        Rising-NotBefore task.sequence task.sequence high (task ∷ l) (omega arith)
          (omega arith, r.1, r.2) in
      elim (Bool-cases (ltb task.sequence n)) [
        | inl e ↦ rw e own
        | inr e ↦ rw e (NotBefore-le n task.sequence (task ∷ l) (ground arith) own)
      ]

  earlier-Covers_old :
      (l m : List (Task F)) (p : Priority) (best : Option (ℕ × Priority))
      → Covers best m
      → Covers (earlier F l p best) m
  earlier-Covers_old [] m p best c = c
  earlier-Covers_old (task ∷ l) m p none c = rw c tt
  earlier-Covers_old (task ∷ l) m p (some (n, q)) c = elim (Bool-cases (ltb task.sequence n)) [
    | inl e ↦ rw e (NotBefore-le task.sequence n m (ground arith) c)
    | inr e ↦ rw e c
  ]

  -- `best` names the oldest task of a queue.
  abbrev Names : Scheduler F → Option (ℕ × Priority) → Type 0
  Names s none = Unit
  Names s (some (n, p)) =
      (task : Task F) × (l : List (Task F)) × (queue F s p ≡ task ∷ l) × (task.sequence ≡ n)

  earlier-Names :
      (s : Scheduler F) (l : List (Task F)) (p : Priority) (best : Option (ℕ × Priority))
      → queue F s p ≡ l
      → Names s best
      → Names s (earlier F l p best)
  earlier-Names s [] p best e h = h
  earlier-Names s (task ∷ l) p none e h = (task, l, e, refl)
  earlier-Names s (task ∷ l) p (some (n, q)) e h = elim (Bool-cases (ltb task.sequence n)) [
    | inl b ↦ rw b (task, l, e, refl)
    | inr b ↦ rw b h
  ]

  pub record IsOrdered (s : Scheduler F) : Type 0 where
    pub rising : (p : Priority) → Rising 0 s.sequence (queue F s p)

  choice-Names : (s : Scheduler F) → Names s (fifo_choice F s)
  unfolding fifo_choice
  choice-Names s = earlier-Names s s.timer_queue js_timer _ refl (
      earlier-Names s s.normal_queue normal _ refl (
        earlier-Names s s.input_queue input _ refl
          (earlier-Names s s.render_queue render none refl tt)))

  choice-Covers :
      (s : Scheduler F) (p : Priority) → IsOrdered s → Covers (fifo_choice F s) (queue F s p)
  unfolding fifo_choice
  choice-Covers s js_timer o = earlier-Covers_new s.timer_queue js_timer _ _ (o.rising js_timer)
  choice-Covers s normal o =
      earlier-Covers_old s.timer_queue s.normal_queue js_timer _
        (earlier-Covers_new s.normal_queue normal _ _ (o.rising normal))
  choice-Covers s input o = earlier-Covers_old s.timer_queue s.input_queue js_timer _ (
      earlier-Covers_old s.normal_queue s.input_queue normal _
        (earlier-Covers_new s.input_queue input _ _ (o.rising input)))
  choice-Covers s render o = earlier-Covers_old s.timer_queue s.render_queue js_timer _ (
      earlier-Covers_old s.normal_queue s.render_queue normal _ (
        earlier-Covers_old s.input_queue s.render_queue input _
          (earlier-Covers_new s.render_queue render none _ (o.rising render))))

  -- The task that was run was at the head of a queue and is not younger than any queued task; if
  -- none was run, nothing was queued.
  abbrev pub RanOldest : Scheduler F → Option (Task F × Reason) → Type 0
  RanOldest s none = (p : Priority) → queue F s p ≡ []
  RanOldest s (some (task, why)) =
      ((p : Priority) × (l : List (Task F)) × (queue F s p ≡ task ∷ l))
      × ((p : Priority) → NotBefore task.sequence (queue F s p))

  fifo-RanOldest :
      (s : Scheduler F) (c : Option (ℕ × Priority))
      → fifo_choice F s ≡ c
      → Names s c
      → ((p : Priority) → Covers c (queue F s p))
      → RanOldest s (settle F s (pick_fifo F s)).task
  unfolding pick_fifo pop
  fifo-RanOldest s none e n h = rw (e, pick_fifo) h
  fifo-RanOldest s (some (first, p)) e (task, l, q, at) h =
      rw (e, q, pick_fifo, pop) ((p, l, q), λ r. rw at (h r))

  -- FIFO mode: over queues whose sequence numbers rise, one call runs the oldest task of all queues,
  -- and runs none only if all are empty.
  pub run_one-RanOldest :
      (s : Scheduler F) (now : F.Time)
      → s.config.fifo ≡ true
      → IsOrdered s
      → RanOldest s (tai_scheduler_run_one F s now).task
  unfolding tai_scheduler_run_one
  run_one-RanOldest s now fifo o =
      simp fifo
        (fifo-RanOldest s (fifo_choice F s) refl (choice-Names s) (λ p. choice-Covers s p o))

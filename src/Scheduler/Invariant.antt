-- ===== src/Scheduler/Invariant.antt =====
-- `pending`, the queues and the generations of src/scheduler.c under each call.
use tai_ci.Base.{
  ℕ, ◌+◌, ◌-◌, ◌%◌, ◌≡◌, refl, ap, Bool, true, false, not, List, [], ◌∷◌, ◌++◌, none, some, All,
  ◌&&◌, length, length-append, arith, if◌then◌else◌, ◌==◌, Bool-cases, Option-cases, inl, inr,
}
use tai_ci.Scheduler.{
  Seconds, Priority, render, input, normal, js_timer, Reason, word, Task, Scheduler, queue,
  set_queue, Picked, pop_from, burst_after, enqueue, pop, fifo_choice, pick_fifo, pick_priority,
  tai_scheduler_run_one, settle, is_current,
}

module _ (F : Seconds) where
  abbrev pub queued : Scheduler F → ℕ
  queued s =
      length s.render_queue + length s.input_queue + length s.normal_queue + length s.timer_queue

  abbrev pub InPlace : ℕ → Priority → Task F → Type 0
  InPlace generation p task = (task.priority ≡ p) × (is_current F generation task ≡ true)

  pub record Inv (s : Scheduler F) : Type 0 where
    pub counted : s.pending ≡ queued s % word
    pub placed : (p : Priority) → All (InPlace s.generation p) (queue F s p)

  All-snoc :
      (P : Task F → Type 0) (l : List (Task F)) (t : Task F) → All P l → P t → All P (l ++ t ∷ [])
  All-snoc P [] t a h = (h, tt)
  All-snoc P (x ∷ l) t a h = (a.0, All-snoc P l t a.1 h)

  queued-set_queue :
      (s : Scheduler F) (p : Priority) (l : List (Task F))
      → queued (set_queue F s p l) + length (queue F s p) ≡ queued s + length l
  queued-set_queue s render l = omega arith
  queued-set_queue s input l = omega arith
  queued-set_queue s normal l = omega arith
  queued-set_queue s js_timer l = omega arith

  pub set_queue-placed :
      (P : Priority → List (Task F) → Type 0) (s : Scheduler F) (p : Priority) (l : List (Task F))
      → P p l
      → ((q : Priority) → P q (queue F s q))
      → (q : Priority) → P q (queue F (set_queue F s p l) q)
  set_queue-placed P s render l a h render = a
  set_queue-placed P s input l a h input = a
  set_queue-placed P s normal l a h normal = a
  set_queue-placed P s js_timer l a h js_timer = a
  set_queue-placed P s p l a h q = h q

  -- The fields behind the queues do not matter to them.
  pub same_queues :
      (P : Priority → List (Task F) → Type 0) (s t : Scheduler F)
      → (t.render_queue ≡ s.render_queue)
        × (t.input_queue ≡ s.input_queue)
        × (t.normal_queue ≡ s.normal_queue)
        × (t.timer_queue ≡ s.timer_queue)
      → ((q : Priority) → P q (queue F s q))
      → (q : Priority) → P q (queue F t q)
  same_queues P s t e h render = rw e.0 (h render)
  same_queues P s t e h input = rw e.1 (h input)
  same_queues P s t e h normal = rw e.2 (h normal)
  same_queues P s t e h js_timer = rw e.3 (h js_timer)

  abbrev pub rejects : Scheduler F → ℕ → Bool
  rejects s g = not (g == 0) && not (g == s.generation)

  pub enqueue-Inv :
      (s : Scheduler F) (p : Priority) (g : ℕ) (at : F.Time) (work : ℕ)
      → Inv s
      → Inv (enqueue F s p g at work).0
  unfolding enqueue
  enqueue-Inv s p g at work v = elim (Bool-cases (rejects s g)) [
    | inl e ↦ rw (e, enqueue) v
    | inr e ↦
        rw (e, enqueue)
          (record {
            counted = omega (
              arith,
              v.counted,
              queued-set_queue s p (queue F s p ++ task ∷ []),
              length-append (queue F s p) (task ∷ []),
            );
            placed =
                same_queues (λ q. All (InPlace s.generation q))
                  (set_queue F s p (queue F s p ++ task ∷ []))
                  (record (set_queue F s p (queue F s p ++ task ∷ [])) {
                    sequence = (s.sequence + 1) % word;
                    pending = (s.pending + 1) % word;
                  })
                  (refl, refl, refl, refl)
                  (set_queue-placed (λ q. All (InPlace s.generation q)) s p _
                    (All-snoc (InPlace s.generation p) (queue F s p) task (v.placed p)
                      (refl, ground arith))
                    v.placed);
          })
  ]
    where
      task : Task F
      task = record {
        work = work;
        priority = p;
        generation = g;
        sequence = s.sequence;
        enqueued_at = at;
      }

  abbrev AfterInv : Picked F → Type 0
  AfterInv none = Unit
  AfterInv (some (task, why, rest)) = Inv rest

  record PickedInv (o : Picked F) : Type 0 where
    rest : AfterInv o

  pop_from-Inv :
      (s : Scheduler F) (p : Priority) (why : Reason) (l : List (Task F))
      → queue F s p ≡ l
      → Inv s
      → PickedInv (pop_from F s p why l)
  pop_from-Inv s p why [] e v = record { rest = tt }
  pop_from-Inv s p why (task ∷ rest) e v = record {
    rest = record {
      counted = omega (arith, v.counted, queued-set_queue s p rest, ap length e);
      placed =
          same_queues (λ q. All (InPlace s.generation q)) (set_queue F s p rest)
            (record (set_queue F s p rest) {
              pending = (s.pending + word - 1) % word;
              foreground_burst = burst_after F s p;
            })
            (refl, refl, refl, refl)
            (set_queue-placed (λ q. All (InPlace s.generation q)) s p rest
              (let h : All (InPlace s.generation p) (task ∷ rest) = rw e at (v.placed p) in h.1)
              v.placed);
    };
  }

  none-Inv : PickedInv none
  none-Inv = record { rest = tt }

  pop-Inv : (s : Scheduler F) (p : Priority) (why : Reason) → Inv s → PickedInv (pop F s p why)
  unfolding pop
  pop-Inv s p why v = pop_from-Inv s p why (queue F s p) refl v

  if-PickedInv :
      (b : Bool) {x y : Picked F} → PickedInv x → PickedInv y → PickedInv (if b then x else y)
  if-PickedInv true h k = h
  if-PickedInv false h k = k

  pick_fifo-Inv : (s : Scheduler F) → Inv s → PickedInv (pick_fifo F s)
  unfolding pick_fifo
  pick_fifo-Inv s v = elim (Option-cases (fifo_choice F s)) [
    | inl e ↦ rw (e, pick_fifo) none-Inv
    | inr (best, e) ↦ rw (e, pick_fifo) (pop-Inv s best.1 _ v)
  ]

  pick_priority-Inv : (s : Scheduler F) (now : F.Time) → Inv s → PickedInv (pick_priority F s now)
  unfolding pick_priority
  pick_priority-Inv s now v = search (if-PickedInv, pop-Inv, none-Inv) depth 8

  settle-Inv : (s : Scheduler F) (o : Picked F) → Inv s → PickedInv o → Inv (settle F s o).after
  settle-Inv s none v h = v
  settle-Inv s (some (task, why, rest)) v h = h.rest

  pub run_one-Inv :
      (s : Scheduler F) (now : F.Time) → Inv s → Inv (tai_scheduler_run_one F s now).after
  unfolding tai_scheduler_run_one
  run_one-Inv s now v =
      settle-Inv s _ v (if-PickedInv s.config.fifo (pick_fifo-Inv s v) (pick_priority-Inv s now v))

-- ===== src/State/InMemory/Log.antt =====
-- The log of crates/h2ai-state/src/in_memory.rs after any sequence of published events.
use mathlib.Core.List.{append_assoc, append-nil}
use text.Mathlib.TextLemmas.{append_cancel_left}
use h2ai_control_plane.Prelude.{
  ℕ, suc, ◌+◌, ◌≤◌, ◌<◌, ◌≡◌, refl, sym, ap, ◌∙◌, ◌&&◌, List, [], ◌∷◌, ◌++◌, map, arith, ◌==◌, ltb,
  u64, str_eq, str_eq_iff, length, filter, if◌then◌else◌,
}
use h2ai_control_plane.Identity.{TaskId, UuidFormat}
use h2ai_control_plane.Task.Event.{H2aiEvent, task_subject}
use h2ai_control_plane.State.InMemory.{InMemoryStateBackend, CapturedEvent}
use h2ai_control_plane.State.InMemory.Keyed.{is_for_task, publish_event}

-- The published events of a task.
abbrev pub own : TaskId → List (TaskId × H2aiEvent) → List H2aiEvent
own id [] = []
own id ((j, e) ∷ xs) = let rest = own id xs in if j == id then e ∷ rest else rest

module _ (uuid : UuidFormat) {Text F64 : Type 0} where
  open uuid use {to_string_injective}

  unfoldable pub publish_all :
      InMemoryStateBackend Text F64 → List (TaskId × H2aiEvent) → InMemoryStateBackend Text F64
  unfolding publish_event
  publish_all b [] = b
  publish_all b ((id, e) ∷ xs) = publish_all (publish_event uuid b id e) xs

module _ (uuid : UuidFormat) where
  open uuid use {to_string, to_string_injective}

  -- The log's entries for published events, numbered from `n + 1`.
  abbrev pub numbered : ℕ → List (TaskId × H2aiEvent) → List CapturedEvent
  numbered n [] = []
  numbered n ((id, e) ∷ xs) =
      record { subject = task_subject uuid id; event = e; seq = suc n } ∷ numbered (suc n) xs

  task_subject_injective : (j id : TaskId) → task_subject uuid j ≡ task_subject uuid id → j ≡ id
  task_subject_injective j id e =
      to_string_injective j id (append_cancel_left "h2ai.tasks." (to_string j) (to_string id) e)

  is_for_task-eq : (j id : TaskId) → str_eq (task_subject uuid j) (task_subject uuid id) ≡ (j == id)
  is_for_task-eq j id = ground (
    arith,
    str_eq_iff (task_subject uuid j) (task_subject uuid id),
    task_subject_injective j id,
    ap (task_subject uuid) {x = j} {y = id},
  )

  unfoldable pub tail_of : TaskId → ℕ → List CapturedEvent → List (ℕ × H2aiEvent)
  tail_of id q es =
      map (λ e. (e.seq, e.event)) (filter (λ e. is_for_task uuid id e && ltb q e.seq) es)

  pub tail_of-append :
      (id : TaskId) (q : ℕ) (es fs : List CapturedEvent)
      → tail_of id q (es ++ fs) ≡ tail_of id q es ++ tail_of id q fs
  unfolding tail_of
  tail_of-append id q [] fs = refl
  tail_of-append id q (e ∷ es) fs = ground (arith, tail_of-append id q es fs)

  -- Entries up to the number asked for are skipped.
  pub tail_of-old :
      (id : TaskId) (q n : ℕ) (xs : List (TaskId × H2aiEvent))
      → n + length xs ≤ q
      → tail_of id q (numbered n xs) ≡ []
  unfolding tail_of
  tail_of-old id q n [] h = refl
  tail_of-old id q n ((j, e) ∷ xs) h = ground (arith, tail_of-old id q (suc n) xs)

  -- Later entries are the task's own events.
  pub tail_of-new :
      (id : TaskId) (q n : ℕ) (xs : List (TaskId × H2aiEvent))
      → q ≤ n
      → map (λ p. p.1) (tail_of id q (numbered n xs)) ≡ own id xs
  unfolding tail_of
  tail_of-new id q n [] h = refl
  tail_of-new id q n ((j, e) ∷ xs) h =
      ground (arith, tail_of-new id q (suc n) xs, is_for_task-eq j id)

  pub events-publish_all :
      {Text F64 : Type 0} (b : InMemoryStateBackend Text F64) (n : ℕ)
      (xs : List (TaskId × H2aiEvent))
      → b.next_seq ≡ n
      → n + length xs < 18446744073709551616
      → (publish_all uuid b xs).events ≡ b.events ++ numbered n xs
  unfolding publish_all
  events-publish_all b n [] at h = sym (append-nil b.events)
  events-publish_all b n ((id, e) ∷ xs) at h =
      let next : u64 (b.next_seq + 1) ≡ suc n = omega arith in
      events-publish_all (publish_event uuid b id e) (suc n) xs next (omega arith)
      ∙ ap
          (λ k.
            (b.events ++ record { subject = task_subject uuid id; event = e; seq = k } ∷ [])
            ++ numbered (suc n) xs)
          next
      ∙ append_assoc b.events
          (record { subject = task_subject uuid id; event = e; seq = suc n } ∷ [])
          (numbered (suc n) xs)

  pub next_seq-publish_all :
      {Text F64 : Type 0} (b : InMemoryStateBackend Text F64) (xs : List (TaskId × H2aiEvent))
      → b.next_seq + length xs < 18446744073709551616
      → (publish_all uuid b xs).next_seq ≡ b.next_seq + length xs
  unfolding publish_all
  next_seq-publish_all b [] h = omega arith
  next_seq-publish_all b ((id, e) ∷ xs) h =
      let next : u64 (b.next_seq + 1) ≡ suc b.next_seq = omega arith in
      let small : (publish_event uuid b id e).next_seq + length xs < 18446744073709551616 =
        omega arith in
      omega (arith, next_seq-publish_all (publish_event uuid b id e) xs small)

  pub snapshots-publish_all :
      {Text F64 : Type 0} (b : InMemoryStateBackend Text F64) (xs : List (TaskId × H2aiEvent))
      → (publish_all uuid b xs).snapshots ≡ b.snapshots
  unfolding publish_all
  snapshots-publish_all b [] = refl
  snapshots-publish_all b ((id, e) ∷ xs) = snapshots-publish_all (publish_event uuid b id e) xs

  pub length-tail_of :
      (id : TaskId) (q : ℕ) (es : List CapturedEvent) → length (tail_of id q es) ≤ length es
  unfolding tail_of
  length-tail_of id q [] = omega arith
  length-tail_of id q (e ∷ es) = ground (arith, length-tail_of id q es)

  pub length-numbered :
      (n : ℕ) (xs : List (TaskId × H2aiEvent)) → length (numbered n xs) ≡ length xs
  length-numbered n [] = refl
  length-numbered n ((id, e) ∷ xs) = ap suc (length-numbered (suc n) xs)

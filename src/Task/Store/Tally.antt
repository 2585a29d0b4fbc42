-- ===== src/Task/Store/Tally.antt =====
-- What any calls of `TaskStore` (crates/h2ai-orchestrator/src/task_store.rs) come to for one task.
use h2ai_control_plane.Prelude.{
  ℕ, ◌+◌, ◌<◌, ◌≡◌, ◌∙◌, refl, ap, Bool, true, false, Option, none, some, List, [], ◌∷◌, arith,
  ◌==◌, u32, All, Bool-cases, inl, inr, if◌then◌else◌,
}
use h2ai_control_plane.Identity.{TaskId, UuidFormat}
use h2ai_control_plane.Task.Phase.{TaskPhase, resolved, failed, awaiting_approval}
use h2ai_control_plane.Task.State.{TaskState, InPhase, enter, enter-InPhase}
use h2ai_control_plane.Task.Store.{TaskStore, with_phase, with_completed, with_validation, get}
use h2ai_control_plane.Task.Store.Calls.{
  Call, insert_state, phase_set, completed, validated, resolve, fail, await_approval, effect,
  history, calls, get-calls,
}

-- The calls for a task, in their order.
abbrev pub own_calls : TaskId → List (TaskId × Call) → List Call
own_calls id [] = []
own_calls id ((j, c) ∷ cs) = let rest = own_calls id cs in if j == id then c ∷ rest else rest

abbrev pub is_insert : Call → Bool
is_insert (insert_state s) = true
is_insert _ = false

abbrev completions : Call → ℕ
completions completed = 1
completions _ = 0

abbrev validations : Bool → Call → ℕ
validations true (validated true) = 1
validations false (validated false) = 1
validations _ _ = 0

abbrev pub total : (Call → ℕ) → List Call → ℕ
total f [] = 0
total f (c ∷ cs) = f c + total f cs

abbrev later {ℓ} : {A : Type ℓ} → Option A → Option A → Option A
later earlier none = earlier
later earlier (some a) = some a

abbrev phase_of : Call → Option TaskPhase
phase_of (phase_set p n r) = some p
phase_of resolve = some resolved
phase_of fail = some failed
phase_of await_approval = some awaiting_approval
phase_of _ = none

abbrev sizes_of : Call → Option (ℕ × ℕ)
sizes_of (phase_set p n r) = some (n, r)
sizes_of _ = none

-- The last value that a call sets.
abbrev pub last_of {ℓ} : {A : Type ℓ} → (Call → Option A) → List Call → Option A
last_of f [] = none
last_of f (c ∷ cs) = later (f c) (last_of f cs)

abbrev pub PhaseAfter : TaskState → Option TaskPhase → TaskState → Type 0
PhaseAfter s none s' =
    (s'.phase ≡ s.phase) × ((s'.phase_name ≡ s.phase_name) × (s'.status ≡ s.status))
PhaseAfter s (some p) s' = InPhase p s'

abbrev pub SizesAfter : TaskState → Option (ℕ × ℕ) → TaskState → Type 0
SizesAfter s none s' =
    (s'.explorers_total ≡ s.explorers_total) × (s'.autonomic_retries ≡ s.autonomic_retries)
SizesAfter s (some (n, r)) s' = (s'.explorers_total ≡ n) × (s'.autonomic_retries ≡ r)

-- A state after calls for its task: what they count, modulo 2 ^ 32, and what they set last.
pub record IsTally (s : TaskState) (done valid pruned : ℕ) (phase : Option TaskPhase)
    (sizes : Option (ℕ × ℕ)) (s' : TaskState) : Type 0 where
  pub completed_eq : s'.explorers_completed ≡ u32 (s.explorers_completed + done)
  pub valid_eq : s'.proposals_valid ≡ u32 (s.proposals_valid + valid)
  pub pruned_eq : s'.proposals_pruned ≡ u32 (s.proposals_pruned + pruned)
  pub phase_after : PhaseAfter s phase s'
  pub sizes_after : SizesAfter s sizes s'
  pub task_eq : s'.task_id ≡ s.task_id
  pub tenant_eq : s'.tenant_id ≡ s.tenant_id

abbrev pub InRange : TaskState → Type 0
InRange s =
    (s.explorers_completed < 4294967296)
    × ((s.proposals_valid < 4294967296) × (s.proposals_pruned < 4294967296))

phase_trans :
    (s s1 s2 : TaskState) (p q : Option TaskPhase)
    → PhaseAfter s p s1
    → PhaseAfter s1 q s2
    → PhaseAfter s (later p q) s2
phase_trans s s1 s2 p (some q) h k = k
phase_trans s s1 s2 none none h k = (k.0 ∙ h.0, (k.1.0 ∙ h.1.0, k.1.1 ∙ h.1.1))
phase_trans s s1 s2 (some p) none h k = record {
  phase_eq = k.0 ∙ h.phase_eq;
  name_eq = k.1.0 ∙ h.name_eq;
  status_eq = k.1.1 ∙ h.status_eq;
}

sizes_trans :
    (s s1 s2 : TaskState) (p q : Option (ℕ × ℕ))
    → SizesAfter s p s1
    → SizesAfter s1 q s2
    → SizesAfter s (later p q) s2
sizes_trans s s1 s2 p (some (n, r)) h k = k
sizes_trans s s1 s2 none none h k = (k.0 ∙ h.0, k.1 ∙ h.1)
sizes_trans s s1 s2 (some (n, r)) none h k = (k.0 ∙ h.0, k.1 ∙ h.1)

IsTally-trans :
    (s s1 s2 : TaskState) (d v p d' v' p' : ℕ) (a a' : Option TaskPhase) (b b' : Option (ℕ × ℕ))
    → IsTally s d v p a b s1
    → IsTally s1 d' v' p' a' b' s2
    → IsTally s (d + d') (v + v') (p + p') (later a a') (later b b') s2
IsTally-trans s s1 s2 d v p d' v' p' a a' b b' h k = record {
  completed_eq = omega (arith, h.completed_eq, k.completed_eq);
  valid_eq = omega (arith, h.valid_eq, k.valid_eq);
  pruned_eq = omega (arith, h.pruned_eq, k.pruned_eq);
  phase_after = phase_trans s s1 s2 a a' h.phase_after k.phase_after;
  sizes_after = sizes_trans s s1 s2 b b' h.sizes_after k.sizes_after;
  task_eq = k.task_eq ∙ h.task_eq;
  tenant_eq = k.tenant_eq ∙ h.tenant_eq;
}

IsTally-refl : (s : TaskState) → InRange s → IsTally s 0 0 0 none none s
IsTally-refl s h = record {
  completed_eq = omega (arith, h.0);
  valid_eq = omega (arith, h.1.0);
  pruned_eq = omega (arith, h.1.1);
  phase_after = (refl, (refl, refl));
  sizes_after = (refl, refl);
  task_eq = refl;
  tenant_eq = refl;
}

IsTally-InRange :
    {s s' : TaskState} {d v p : ℕ} {a : Option TaskPhase} {b : Option (ℕ × ℕ)}
    → IsTally s d v p a b s'
    → InRange s'
IsTally-InRange h =
    (omega (arith, h.completed_eq), (omega (arith, h.valid_eq), omega (arith, h.pruned_eq)))

abbrev Tallied : TaskState → Call → TaskState → Type 0
Tallied s c s' =
    IsTally s (completions c) (validations true c) (validations false c) (phase_of c) (sizes_of c)
      s'

moved : (p : TaskPhase) (s : TaskState) → InRange s → IsTally s 0 0 0 (some p) none (enter p s)
unfolding enter
moved p s h = record {
  completed_eq = omega (arith, h.0);
  valid_eq = omega (arith, h.1.0);
  pruned_eq = omega (arith, h.1.1);
  phase_after = enter-InPhase p s;
  sizes_after = (refl, refl);
  task_eq = refl;
  tenant_eq = refl;
}

effect-Tallied :
    (c : Call) (s : TaskState)
    → is_insert c ≡ false
    → InRange s
    → (s' : TaskState) × ((effect c (some s) ≡ some s') × Tallied s c s')
unfolding with_phase with_completed with_validation
effect-Tallied (insert_state t) s e h = absurd cc
effect-Tallied (phase_set p n r) s e h = (
  with_phase p n r s,
  (
    refl,
    record {
      completed_eq = omega (arith, h.0);
      valid_eq = omega (arith, h.1.0);
      pruned_eq = omega (arith, h.1.1);
      phase_after = record { phase_eq = refl; name_eq = refl; status_eq = refl };
      sizes_after = (refl, refl);
      task_eq = refl;
      tenant_eq = refl;
    },
  ),
)
effect-Tallied completed s e h = (
  with_completed s,
  (
    refl,
    record {
      completed_eq = refl;
      valid_eq = omega (arith, h.1.0);
      pruned_eq = omega (arith, h.1.1);
      phase_after = (refl, (refl, refl));
      sizes_after = (refl, refl);
      task_eq = refl;
      tenant_eq = refl;
    },
  ),
)
effect-Tallied (validated true) s e h = (
  with_validation true s,
  (
    refl,
    record {
      completed_eq = omega (arith, h.0);
      valid_eq = refl;
      pruned_eq = omega (arith, h.1.1);
      phase_after = (refl, (refl, refl));
      sizes_after = (refl, refl);
      task_eq = refl;
      tenant_eq = refl;
    },
  ),
)
effect-Tallied (validated false) s e h = (
  with_validation false s,
  (
    refl,
    record {
      completed_eq = omega (arith, h.0);
      valid_eq = omega (arith, h.1.0);
      pruned_eq = refl;
      phase_after = (refl, (refl, refl));
      sizes_after = (refl, refl);
      task_eq = refl;
      tenant_eq = refl;
    },
  ),
)
effect-Tallied resolve s e h = (enter resolved s, (refl, moved resolved s h))
effect-Tallied fail s e h = (enter failed s, (refl, moved failed s h))
effect-Tallied await_approval s e h =
    (enter awaiting_approval s, (refl, moved awaiting_approval s h))

-- The tally of a list of calls.
abbrev pub TalliedAll : TaskState → List Call → TaskState → Type 0
TalliedAll s cs s' =
    IsTally s (total completions cs) (total (validations true) cs) (total (validations false) cs)
      (last_of phase_of cs) (last_of sizes_of cs) s'

history-TalliedAll :
    (id : TaskId) (cs : List (TaskId × Call)) (s : TaskState)
    → All (λ c. is_insert c ≡ false) (own_calls id cs)
    → InRange s
    → (s' : TaskState) × ((history id cs (some s) ≡ some s') × TalliedAll s (own_calls id cs) s')
history-TalliedAll id [] s a h = (s, (refl, IsTally-refl s h))
history-TalliedAll id ((j, c) ∷ cs) s a h = elim (Bool-cases (j == id)) [
  | inr other ↦ rw other (history-TalliedAll id cs s (rw other at a) h)
  | inl same ↦
      let a' : All (λ d. is_insert d ≡ false) (c ∷ own_calls id cs) = rw same at a in
      let (s1, (e1, t1)) = effect-Tallied c s a'.0 h in
      let (s2, (e2, t2)) = history-TalliedAll id cs s1 a'.1 (IsTally-InRange t1) in
      rw same (s2, (ap (history id cs) e1 ∙ e2, IsTally-trans s s1 s2 _ _ _ _ _ _ _ _ _ _ t1 t2))
]

module _ (uuid : UuidFormat) where
  -- After any calls, of which those for a task with counters below 2 ^ 32 insert no state of it, the task's counters are
  -- the old ones and the numbers of its own completions, valid and invalid proposals, modulo 2 ^ 32; its phase, name
  -- and status are those of the last phase that one of its own calls sets, and its totals of explorers and retries
  -- those that the last one of them sets, or else as before; and it belongs to the same task and tenant.
  pub calls-TalliedAll :
      (store : TaskStore) (cs : List (TaskId × Call)) (id : TaskId) (s : TaskState)
      → get uuid store id ≡ some s
      → InRange s
      → All (λ c. is_insert c ≡ false) (own_calls id cs)
      → (s' : TaskState) × ((get uuid (calls uuid store cs) id ≡ some s')
          × TalliedAll s (own_calls id cs) s')
  calls-TalliedAll store cs id s stored in_range none_inserted =
      let (s', (e, tally)) = history-TalliedAll id cs s none_inserted in_range in
      (s', (get-calls uuid store cs id ∙ ap (history id cs) stored ∙ e, tally))

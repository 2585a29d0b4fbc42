-- ===== src/Task/Store/Invariants.antt =====
-- What holds of every entry of a `TaskStore` through any sequence of calls
-- (crates/h2ai-orchestrator/src/task_store.rs).
use mathlib.Core.Path.{subst}
use h2ai_control_plane.Prelude.{
  ◌≡◌, ◌≢◌, refl, sym, true, false, Option, none, some, List, [], ◌∷◌, arith, ◌==◌, ==_iff,
  str_eq_iff, Bool-cases, ◌⊎◌, inl, inr,
}
use h2ai_control_plane.Identity.{TaskId, TenantId, UuidFormat}
use h2ai_control_plane.Task.Phase.{resolved, failed, awaiting_approval, code}
use h2ai_control_plane.Task.State.{TaskState, IsCoherent, enter, enter-InPhase}
use h2ai_control_plane.Task.Store.{
  TaskStore, with_phase, with_completed, with_validation, is_live, for_tenant, get, get_for_tenant,
  is_active,
}
use h2ai_control_plane.Task.Store.Calls.{
  Call, insert_state, phase_set, completed, validated, resolve, fail, await_approval, effect,
  history, call, calls, get-call, get-calls,
}

-- Only a coherent state is inserted.
abbrev pub InsertsCoherent : Call → Type 0
InsertsCoherent (insert_state s) = IsCoherent s
InsertsCoherent _ = Unit

abbrev OnSome : (TaskState → Type 0) → Option TaskState → Type 0
OnSome P none = Unit
OnSome P (some s) = P s

-- The calls for one task are all of a kind; the calls for other tasks are free.
abbrev pub Own : TaskId → (Call → Type 0) → List (TaskId × Call) → Type 0
Own id Allowed [] = Unit
Own id Allowed ((j, c) ∷ cs) = (j ≡ id → Allowed c) × Own id Allowed cs

module _ (P : TaskState → Type 0) (Allowed : Call → Type 0) where
  abbrev Keeps : Type 0
  Keeps = (c : Call) (o : Option TaskState) → Allowed c → OnSome P o → OnSome P (effect c o)

  history-OnSome :
      Keeps
      → (id : TaskId) (cs : List (TaskId × Call)) (o : Option TaskState) → Own id Allowed cs
      → OnSome P o
      → OnSome P (history id cs o)
  history-OnSome keep id [] o a h = h
  history-OnSome keep id ((j, c) ∷ cs) o a h = elim (Bool-cases (j == id)) [
    | inl same ↦
        rw same
          (history-OnSome keep id cs (effect c o) a.1 (keep c o (a.0 ((==_iff j id).0 same)) h))
    | inr other ↦ rw other (history-OnSome keep id cs o a.1 h)
  ]

of_OnSome :
    (P : TaskState → Type 0) (o : Option TaskState) {s : TaskState} → OnSome P o → o ≡ some s → P s
of_OnSome P o h e = subst (OnSome P) e h

-- A call keeps the three phase fields in agreement.
effect-IsCoherent : Keeps IsCoherent InsertsCoherent
effect-IsCoherent (insert_state s) o a h = a
effect-IsCoherent (phase_set p n r) none a h = tt
effect-IsCoherent (phase_set p n r) (some s) a h =
    (p, unfold with_phase enter in record { phase_eq = refl; name_eq = refl; status_eq = refl })
effect-IsCoherent completed none a h = tt
effect-IsCoherent completed (some s) a h = (
  h.0,
  unfold with_completed in
      record { phase_eq = h.1.phase_eq; name_eq = h.1.name_eq; status_eq = h.1.status_eq },
)
effect-IsCoherent (validated v) none a h = tt
effect-IsCoherent (validated true) (some s) a h = (
  h.0,
  unfold with_validation in
      record { phase_eq = h.1.phase_eq; name_eq = h.1.name_eq; status_eq = h.1.status_eq },
)
effect-IsCoherent (validated false) (some s) a h = (
  h.0,
  unfold with_validation in
      record { phase_eq = h.1.phase_eq; name_eq = h.1.name_eq; status_eq = h.1.status_eq },
)
effect-IsCoherent resolve none a h = tt
effect-IsCoherent resolve (some s) a h = (resolved, enter-InPhase resolved s)
effect-IsCoherent fail none a h = tt
effect-IsCoherent fail (some s) a h = (failed, enter-InPhase failed s)
effect-IsCoherent await_approval none a h = tt
effect-IsCoherent await_approval (some s) a h =
    (awaiting_approval, enter-InPhase awaiting_approval s)

-- A call other than an insertion or a change of phase.
abbrev pub Quiet : Call → Type 0
Quiet (insert_state s) = ⊥
Quiet (phase_set p n r) = ⊥
Quiet await_approval = ⊥
Quiet _ = Unit

abbrev pub IsFinished : TaskState → Type 0
IsFinished s = is_live s ≡ false

effect-IsFinished : Keeps IsFinished Quiet
unfolding is_live with_completed with_validation enter
effect-IsFinished (insert_state s) o a h = absurd a
effect-IsFinished (phase_set p n r) o a h = absurd a
effect-IsFinished await_approval o a h = absurd a
effect-IsFinished c none a h = tt
effect-IsFinished completed (some s) a h = h
effect-IsFinished (validated true) (some s) a h = h
effect-IsFinished (validated false) (some s) a h = h
effect-IsFinished resolve (some s) a h = refl
effect-IsFinished fail (some s) a h = refl

-- Insertions keep the tenant of a task.
abbrev pub KeepsTenant : TenantId → Call → Type 0
KeepsTenant t (insert_state s) = s.tenant_id ≡ t
KeepsTenant t _ = Unit

effect-tenant_id : (t : TenantId) → Keeps (λ s. s.tenant_id ≡ t) (KeepsTenant t)
unfolding with_phase with_completed with_validation enter
effect-tenant_id t (insert_state s) o a h = a
effect-tenant_id t c none a h = tt
effect-tenant_id t (validated true) (some s) a h = h
effect-tenant_id t (validated false) (some s) a h = h
effect-tenant_id t _ (some s) a h = h

module _ (uuid : UuidFormat) (store : TaskStore) (cs : List (TaskId × Call)) (id : TaskId) where
  calls-OnSome :
      (P : TaskState → Type 0) (Allowed : Call → Type 0)
      → Keeps P Allowed
      → Own id Allowed cs
      → OnSome P (get uuid store id)
      → OnSome P (get uuid (calls uuid store cs) id)
  calls-OnSome P Allowed keep a h =
      subst (OnSome P) (sym (get-calls uuid store cs id))
        (history-OnSome P Allowed keep id cs (get uuid store id) a h)

OnSome-of :
    (P : TaskState → Type 0) (o : Option TaskState)
    → ((s : TaskState) → o ≡ some s → P s)
    → OnSome P o
OnSome-of P none f = tt
OnSome-of P (some s) f = f s refl

effect-finishes :
    (c : Call) (o : Option TaskState) → (c ≡ resolve) ⊎ (c ≡ fail) → OnSome IsFinished (effect c o)
unfolding is_live enter code
effect-finishes c none e = ground arith
effect-finishes c (some s) e = ground arith

same_id : (id : TaskId) → (id == id) ≡ true
same_id id = ground arith

foreign :
    (o : Option TaskState) (t u : TenantId)
    → u ≢ t
    → OnSome (λ s. s.tenant_id ≡ t) o
    → for_tenant u o ≡ none
unfolding for_tenant
foreign none t u ne h = refl
foreign (some s) t u ne h = ground (arith, str_eq_iff s.tenant_id u)

module _ (uuid : UuidFormat) where
  -- If every state of the store is coherent (its `phase`, `phase_name` and `status` name one phase),
  -- then after any calls the state of a task is coherent, if the states inserted for it are.
  pub calls-IsCoherent :
      (store : TaskStore) (cs : List (TaskId × Call))
      → ((id : TaskId) (s : TaskState) → get uuid store id ≡ some s → IsCoherent s)
      → (id : TaskId) (s : TaskState) → Own id InsertsCoherent cs
      → get uuid (calls uuid store cs) id ≡ some s
      → IsCoherent s
  calls-IsCoherent store cs old id s ins e =
      of_OnSome IsCoherent _
        (calls-OnSome uuid store cs id IsCoherent InsertsCoherent effect-IsCoherent ins
          (OnSome-of IsCoherent _ (old id)))
        e

  is_active-eq-false :
      (store : TaskStore) (id : TaskId)
      → OnSome IsFinished (get uuid store id)
      → is_active uuid store id ≡ false
  unfolding is_active get
  is_active-eq-false store id h = ground arith

  first-IsFinished :
      (store : TaskStore) (id : TaskId) (c : Call)
      → (c ≡ resolve) ⊎ (c ≡ fail)
      → OnSome IsFinished (get uuid (call uuid store id c) id)
  first-IsFinished store id c e =
      rw (get-call, same_id id) (effect-finishes c (get uuid store id) e)

  -- Once a task is marked resolved or failed it is not active, whatever completions, validations and
  -- further marks follow for it, and whatever calls for other tasks.
  pub is_active-finished :
      (store : TaskStore) (id : TaskId) (c : Call) (cs : List (TaskId × Call))
      → (c ≡ resolve) ⊎ (c ≡ fail)
      → Own id Quiet cs
      → is_active uuid (calls uuid (call uuid store id c) cs) id ≡ false
  is_active-finished store id c cs e quiet =
      is_active-eq-false (calls uuid (call uuid store id c) cs) id (
        calls-OnSome uuid (call uuid store id c) cs id IsFinished Quiet effect-IsFinished quiet
          (first-IsFinished store id c e))

  foreign_tenant :
      (store : TaskStore) (id : TaskId) (t u : TenantId)
      → u ≢ t
      → OnSome (λ s. s.tenant_id ≡ t) (get uuid store id)
      → get_for_tenant uuid store id u ≡ none
  unfolding get_for_tenant get
  foreign_tenant store id t u ne h = foreign _ t u ne h

  -- While the insertions keep the tenant `t` of a task, no other tenant can read the task.
  pub get_for_tenant-foreign :
      (store : TaskStore) (cs : List (TaskId × Call)) (id : TaskId) (t u : TenantId)
      → u ≢ t
      → ((s : TaskState) → get uuid store id ≡ some s → s.tenant_id ≡ t)
      → Own id (KeepsTenant t) cs
      → get_for_tenant uuid (calls uuid store cs) id u ≡ none
  get_for_tenant-foreign store cs id t u ne old keep =
      foreign_tenant (calls uuid store cs) id t u ne (
        calls-OnSome uuid store cs id (λ s. s.tenant_id ≡ t) (KeepsTenant t) (effect-tenant_id t)
          keep (OnSome-of (λ s. s.tenant_id ≡ t) _ old))

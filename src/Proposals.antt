-- ===== src/Proposals.antt =====
-- crates/h2ai-state/src/semilattice.rs: the proposals of a task, one per explorer, joined as a CRDT, and
-- their partition for the merger. `F` with `gt` is `f64` with `>`.
pub mod Best
pub mod Join
pub mod Semilattice
pub mod Ranking
use h2ai_control_plane.Prelude.{
  ℕ, String, Bool, true, false, not, ◌&&◌, ◌||◌, Option, none, some, List, [], ◌∷◌, map, ◌==◌, ltb,
  eq_ℕ, length, any, filter, is_empty, if◌then◌else◌,
}
use mathlib.Core.Option
use h2ai_control_plane.HashMap
use h2ai_control_plane.HashMap.{HashMap}
use h2ai_control_plane.Sorting.{sort}
use h2ai_control_plane.Identity.{TaskId, ExplorerId}

-- `tau`, `adapter_kind` and `timestamp` are left out: nothing here reads them.
pub record ProposalEvent : Type 0 where
  pub task_id : TaskId
  pub explorer_id : ExplorerId
  pub generation : ℕ  -- u64
  pub raw_output : String
  pub token_cost : ℕ  -- u64

-- What `compile` reads of a `BranchPrunedEvent`.
pub record BranchPrunedEvent : Type 0 where
  pub explorer_id : ExplorerId
  pub reason : String

-- A proposal, its generation and its score.
abbrev pub Entry {ℓ} : Type ℓ → Type ℓ
Entry F = ProposalEvent × (ℕ × F)

abbrev pub ProposalSet {ℓ} : Type ℓ → Type ℓ
ProposalSet F = HashMap ExplorerId (Entry F)

abbrev pub new {ℓ} : {F : Type ℓ} → ProposalSet F
new = []

module _ {ℓ} {F : Type ℓ} (gt : F → F → Bool) where
  -- `should_replace`
  abbrev pub should_replace : ℕ → F → ℕ → F → Bool
  should_replace incoming_gen score existing_gen existing_score =
      ltb existing_gen incoming_gen || ((incoming_gen == existing_gen) && gt score existing_score)

  -- What `and_modify` leaves of an entry.
  abbrev pub modified : ProposalEvent → F → Entry F → Entry F
  modified proposal score (existing, (existing_gen, existing_score)) =
      if should_replace proposal.generation score existing_gen existing_score
      then (proposal, (proposal.generation, score))
      else (existing, (existing_gen, existing_score))

  unfoldable pub insert_scored : ProposalSet F → ProposalEvent → F → ProposalSet F
  unfolding HashMap.get HashMap.insert
  insert_scored s proposal score = elim (HashMap.get s proposal.explorer_id) [
    | none ↦ HashMap.insert s proposal.explorer_id (proposal, (proposal.generation, score))
    | some existing ↦ HashMap.insert s proposal.explorer_id (modified proposal score existing)
  ]

  unfoldable pub join : ProposalSet F → ProposalSet F → ProposalSet F
  unfolding insert_scored
  join lhs [] = lhs
  join lhs ((_, (proposal, (_, score))) ∷ rhs) = join (insert_scored lhs proposal score) rhs

  -- `insert`, over the score `0.0`.
  abbrev pub insert : F → ProposalSet F → ProposalEvent → ProposalSet F
  insert zero s proposal = insert_scored s proposal zero

unfoldable pub get {ℓ} : {F : Type ℓ} → ProposalSet F → ExplorerId → Option ProposalEvent
unfolding HashMap.get
get s explorer_id = Option.map (λ e. e.0) (HashMap.get s explorer_id)

abbrev pub len {ℓ} : {F : Type ℓ} → ProposalSet F → ℕ
len s = length s

pub record SemilatticeResult {ℓ} (F : Type ℓ) : Type ℓ where
  pub task_id : TaskId
  pub valid_proposals : List ProposalEvent
  pub valid_proposal_scores : List F
  pub failed_proposals : List ProposalEvent
  pub pruned_proposals : List BranchPrunedEvent

module _ {ℓ} {F : Type ℓ} (gt : F → F → Bool) where
  -- The sort by falling score.
  abbrev pub ranked : List (ProposalEvent × F) → List (ProposalEvent × F)
  ranked xs = sort (λ a b. gt a.1 b.1) xs

  -- `pruned_ids.contains`
  abbrev pub is_pruned : List BranchPrunedEvent → ProposalEvent → Bool
  is_pruned pruned p = any (λ b. b.explorer_id == p.explorer_id) pruned

  unfoldable pub scored : ProposalSet F → List BranchPrunedEvent → List (ProposalEvent × F)
  scored proposals pruned =
      map (λ e. (e.0, e.1.1)) (filter (λ e. not (is_pruned pruned e.0)) (HashMap.values proposals))

  -- The partition loop, and `SemilatticeResult::compile`, over the score `0.0`.
  module _ (zero : F) where
    unfoldable pub compile : TaskId → ProposalSet F → List BranchPrunedEvent → SemilatticeResult F
    unfolding sort scored
    compile task_id proposals pruned =
        let by_score = ranked (scored proposals pruned) in
        record {
          task_id = task_id;
          valid_proposals = map (λ r. r.0) (filter (λ r. gt r.1 zero) by_score);
          valid_proposal_scores = map (λ r. r.1) (filter (λ r. gt r.1 zero) by_score);
          failed_proposals = map (λ r. r.0) (filter (λ r. not (gt r.1 zero)) by_score);
          pruned_proposals = pruned;
        }

-- ===== src/Tests/Proposals.antt =====
-- Sets of proposals with natural numbers as scores.
use mathlib.Core.Option.{some-injective}
use h2ai_control_plane.HashMap
use h2ai_control_plane.Prelude.{ℕ, ◌≡◌, refl, Bool, some, List, [], ◌∷◌, arith, ltb, inr}
use h2ai_control_plane.Sorting.{IsStrictWeak}
use h2ai_control_plane.Identity.{ExplorerId}
use h2ai_control_plane.Proposals.{
  ProposalEvent, BranchPrunedEvent, Entry, ProposalSet, join, compile,
}
use h2ai_control_plane.Proposals.Best.{beats, Decided}
use h2ai_control_plane.Proposals.Join.{entry, IsWellFormed}
use h2ai_control_plane.Proposals.Semilattice.{join_assoc, join_comm, join-tie}
use h2ai_control_plane.Proposals.Ranking.{IsRanking, compile-IsRanking}

abbrev above : ℕ → ℕ → Bool
above a b = ltb b a

above-IsStrictWeak : IsStrictWeak above
above-IsStrictWeak = record {
  irrefl = λ a. ground arith;
  trans = λ a b c h k. ground arith;
  neg_trans = λ a b c h k. ground arith;
}

abbrev proposal : ExplorerId → ℕ → ProposalEvent
proposal explorer_id generation = record {
  task_id = 1;
  explorer_id = explorer_id;
  generation = generation;
  raw_output = "out";
  token_cost = 5;
}

abbrev first : ProposalSet ℕ
first = (1, (proposal 1 0, (0, 80))) ∷ (2, (proposal 2 0, (0, 30))) ∷ []

abbrev second : ProposalSet ℕ
second = (2, (proposal 2 1, (1, 10))) ∷ (3, (proposal 3 0, (0, 0))) ∷ []

abbrev third : ProposalSet ℕ
third = (2, (proposal 2 1, (1, 20))) ∷ []

later_generation_wins : entry (join above first second) 2 ≡ some (proposal 2 1, (1, 10))
unfolding join
later_generation_wins = refl

first_wf : IsWellFormed first
unfolding HashMap.get
first_wf = ((refl, (refl, refl)), ((refl, (refl, refl)), tt))

second_wf : IsWellFormed second
unfolding HashMap.get
second_wf = ((refl, (refl, refl)), ((refl, (refl, refl)), tt))

third_wf : IsWellFormed third
unfolding HashMap.get
third_wf = ((refl, (refl, refl)), tt)

join_assoc_example :
    entry (join above (join above first second) third) 2
    ≡ entry (join above first (join above second third)) 2
join_assoc_example = join_assoc above above-IsStrictWeak first second third 2 second_wf third_wf

later_generation :
    (x y : Entry ℕ) → entry first 2 ≡ some x → entry second 2 ≡ some y → Decided (beats above) x y
unfolding HashMap.get
later_generation x y ex ey = rw (← some-injective _ _ ex, ← some-injective _ _ ey) (inr refl)

join_comm_example : entry (join above first second) 2 ≡ entry (join above second first) 2
join_comm_example =
    join_comm above above-IsStrictWeak first second 2 first_wf second_wf later_generation

-- Two proposals of one explorer, of one generation and with one score.
abbrev revised : ProposalEvent
revised = record (proposal 1 0) { raw_output = "another" }

abbrev fourth : ProposalSet ℕ
fourth = (1, (revised, (0, 80))) ∷ []

fourth_wf : IsWellFormed fourth
unfolding HashMap.get
fourth_wf = ((refl, (refl, refl)), tt)

join-tie_example :
    (entry (join above first fourth) 1 ≡ some (proposal 1 0, (0, 80)))
    × (entry (join above fourth first) 1 ≡ some (revised, (0, 80)))
unfolding HashMap.get
join-tie_example =
    join-tie above first fourth 1 (proposal 1 0, (0, 80)) (revised, (0, 80)) first_wf fourth_wf refl
      refl refl refl refl

abbrev dropped : List BranchPrunedEvent
dropped = record { explorer_id = 2; reason = "stale" } ∷ []

compile-first : (compile above 0 1 first dropped).valid_proposals ≡ proposal 1 0 ∷ []
unfolding compile
compile-first = refl

compile-IsRanking_example : IsRanking above 0 first dropped (compile above 0 1 first dropped)
compile-IsRanking_example = compile-IsRanking above 0 1 first dropped above-IsStrictWeak

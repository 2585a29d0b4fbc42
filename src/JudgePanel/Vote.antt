-- ===== src/JudgePanel/Vote.antt =====
-- What the vote of a panel guarantees (crates/h2ai-orchestrator/src/judge_panel.rs).
use h2ai_control_plane.Prelude.{ℕ, ◌+◌, ◌*◌, ◌<◌, ◌≡◌, ap, arith}
use h2ai_control_plane.JudgePanel.{
  PanelDiversityKind, cross_family, persona_only, ConstraintVerdict, pass, failed, uncertain,
  aggregate_votes,
}

add_comm : (a b : ℕ) → a + b ≡ b + a
add_comm a b = omega arith

-- The verdict for the opposite votes.
abbrev pub opposite : ConstraintVerdict → ConstraintVerdict
opposite pass = failed
opposite failed = pass
opposite (uncertain votes_pass votes_fail) = uncertain votes_fail votes_pass

-- If the quorum of any positive number of votes is more than half of them, the vote is fair: exchanging the votes for and against
-- turns the verdict into its opposite, on both kinds of panels.
pub aggregate_votes-opposite :
    (quorum : ℕ → ℕ) (votes_pass votes_fail : ℕ) (kind : PanelDiversityKind)
    → ((total : ℕ) → 0 < total → total < quorum total * 2)
    → aggregate_votes quorum votes_fail votes_pass kind
      ≡ opposite (aggregate_votes quorum votes_pass votes_fail kind)
unfolding aggregate_votes
aggregate_votes-opposite quorum votes_pass votes_fail cross_family most =
    ground (arith, most (votes_pass + votes_fail), ap quorum (add_comm votes_pass votes_fail))
aggregate_votes-opposite quorum votes_pass votes_fail persona_only most = ground arith

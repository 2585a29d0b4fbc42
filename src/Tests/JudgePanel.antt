-- ===== src/Tests/JudgePanel.antt =====
-- A panel of three families, and its votes with a quorum of two thirds.
use h2ai_control_plane.Prelude.{
  ℕ, ◌+◌, ◌*◌, ◌/◌, ◌<◌, ◌≤◌, ◌≡◌, refl, List, [], ◌∷◌, none, arith, leb, length, if◌then◌else◌,
}
use h2ai_control_plane.JudgePanel.{
  Adapter, AdapterKind, open_ai, anthropic, ollama, cloud_generic, generic, cross_family,
  persona_only, build, uncertain, aggregate_votes,
}
use h2ai_control_plane.JudgePanel.Panel.{Diverse, judges, build-Diverse}
use h2ai_control_plane.JudgePanel.Vote.{opposite, aggregate_votes-opposite}

abbrev primary : Adapter
primary = record { reference = 0; kind = anthropic "KEY" "m" }

abbrev second : Adapter
second = record { reference = 1; kind = anthropic "KEY" "n" }

abbrev third : Adapter
third = record { reference = 2; kind = ollama "host" "m" }

abbrev fourth : Adapter
fourth = record { reference = 3; kind = open_ai "KEY" "m" }

abbrev fifth : Adapter
fifth = record { reference = 4; kind = cloud_generic "host" "KEY" none generic }

abbrev pool : List (Adapter × AdapterKind)
pool =
    (second, second.kind) ∷ (third, third.kind) ∷ (fourth, fourth.kind) ∷ (fifth, fifth.kind) ∷ []

seated : judges (build primary pool) ≡ primary ∷ third ∷ fourth ∷ []
unfolding build
seated = refl

build-Diverse_example :
    (cross : List Adapter) × ((judges (build primary pool) ≡ primary ∷ cross)
      × (Diverse (primary ∷ cross)
          × ((length cross ≤ 2)
              × ((build primary pool).diversity_kind ≡ (
                  if leb 2 (length (judges (build primary pool)))
                  then cross_family
                  else persona_only)))))
build-Diverse_example = build-Diverse primary pool (refl, (refl, (refl, (refl, tt))))

abbrev two_thirds : ℕ → ℕ
two_thirds total = (total * 2 + 2) / 3

more_than_half : (total : ℕ) → 0 < total → total < two_thirds total * 2
more_than_half total h = omega arith

split_vote : aggregate_votes two_thirds 2 1 persona_only ≡ uncertain 2 1
unfolding aggregate_votes
split_vote = refl

aggregate_votes-opposite_example :
    aggregate_votes two_thirds 1 2 cross_family
    ≡ opposite (aggregate_votes two_thirds 2 1 cross_family)
aggregate_votes-opposite_example =
    aggregate_votes-opposite two_thirds 2 1 cross_family more_than_half

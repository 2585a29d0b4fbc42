-- ===== src/Leader/Credibility.antt =====
-- The credibility of a leader (crates/h2ai-orchestrator/src/leader.rs) as a number between 0 and 1.
use h2ai_control_plane.Prelude.{◌≡◌, Bool, true, false, Bool-cases, inl, inr}
use h2ai_control_plane.Floats.{IsFloats, InUnit}
use h2ai_control_plane.Leader.Types.{LeaderHost}
use h2ai_control_plane.Leader.Election.{update_credibility}

module _ {F : Type 0} (host : LeaderHost F) where
  -- The rate moves no number out of the unit interval on the far side.
  abbrev pub IsRate : F → Type 0
  IsRate rate =
      (c : F)
      → InUnit host.floats c
      → (host.floats.le host.floats.zero (host.floats.add c rate) ≡ true)
        × (host.floats.le (host.floats.sub c rate) host.floats.one ≡ true)

  pub update_credibility-InUnit :
      (c : F) (up : Bool) (rate : F)
      → IsFloats host.floats
      → IsRate rate
      → InUnit host.floats c
      → InUnit host.floats (update_credibility host c up rate)
  unfolding update_credibility
  update_credibility-InUnit c true rate laws r h =
      let sum = host.floats.add c rate in
      elim (Bool-cases (host.floats.lt host.floats.one sum)) [
        | inl above ↦
            rw (laws.min_right sum host.floats.one above)
              (laws.le_of_lt _ _ laws.zero-lt-one, laws.one-le-one)
        | inr below ↦ elim (laws.min_cases sum host.floats.one) [
          | inl e ↦ rw e ((r c h).0, laws.not_above_one sum (r c h).0 below)
          | inr e ↦ rw e (laws.le_of_lt _ _ laws.zero-lt-one, laws.one-le-one)
        ]
      ]
  update_credibility-InUnit c false rate laws r h =
      let rest = host.floats.sub c rate in
      elim (Bool-cases (host.floats.lt rest host.floats.zero)) [
        | inl below ↦
            rw (laws.max_right rest host.floats.zero below)
              (laws.zero-le-zero, laws.le_of_lt _ _ laws.zero-lt-one)
        | inr above ↦ elim (laws.max_cases rest host.floats.zero) [
          | inl e ↦ rw e (laws.not_below_zero rest (r c h).1 above, (r c h).1)
          | inr e ↦ rw e (laws.zero-le-zero, laws.le_of_lt _ _ laws.zero-lt-one)
        ]
      ]

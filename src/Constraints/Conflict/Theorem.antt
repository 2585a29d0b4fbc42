-- ===== src/Constraints/Conflict/Theorem.antt =====
-- crates/h2ai-constraints/src/conflict.rs: which constraints conflict.
use mathlib.Core.List.{Memᴰ}
use mathlib.Core.List.Memᴰ
use h2ai_control_plane.Prelude.{◌≡◌, ◌⊎◌, String, true, List, eq_string}
use h2ai_control_plane.HashMap
use h2ai_control_plane.HashSet
use h2ai_control_plane.Floats.{Floats}
use h2ai_control_plane.Constraints.Types.{NumericOp, ConstraintDoc}
use h2ai_control_plane.Constraints.Conflict.{eq_pair}
use h2ai_control_plane.Constraints.Conflict.Docs.{Orders, Limits}

module _ {F J : Type 0} (f : Floats F) (docs : List (ConstraintDoc F J)) where
  -- One constraint wants `x` before `y`, the other one `y` before `x`.
  pub record Reversed (a b : String) : Type 0 where
    pub x : String
    pub y : String
    pub one_way : Orders docs a x y
    pub other_way : Orders docs b y x

  -- One constraint bounds a field from above, the other one by more from below.
  pub record Disjoint (a b : String) : Type 0 where
    pub field : String
    pub most : F
    pub least : F
    pub upper : Limits docs field a NumericOp.le most
    pub lower : Limits docs field b NumericOp.ge least
    pub gap : f.lt most least ≡ true

  -- One constraint's document refers to the other constraint.
  pub record Refers (a b : String) : Type 0 where
    pub doc : ConstraintDoc F J
    pub listed : Memᴰ doc docs
    pub named : a ≡ doc.id
    pub related : Memᴰ b doc.related_to

  abbrev pub Conflict : String → String → Type 0
  Conflict a b = Reversed a b ⊎ ((Disjoint a b ⊎ Disjoint b a) ⊎ (Refers a b ⊎ Refers b a))

-- ===== src/Constraints/Conflict/Pairs.antt =====
-- crates/h2ai-constraints/src/conflict.rs: canonical pairs.
use text.Mathlib.TextEquality.{Char-path}
use mathlib.Core.Path.{ap₂}
use Prim.Native.String.{String}
use h2ai_control_plane.Prelude.{◌≡◌, ◌⊎◌, refl, true, false, arith}
use h2ai_control_plane.Provisioner.{str_ltb}
use h2ai_control_plane.Constraints.Conflict.{canonical_pair}

str_ltb-connex : (s t : String) → str_ltb s t ≡ false → str_ltb t s ≡ false → s ≡ t
unfolding str_ltb
str_ltb-connex String.[] String.[] h k = refl
str_ltb-connex String.[] (String.◌∷◌ d t) h k = cc
str_ltb-connex (String.◌∷◌ c s) String.[] h k = cc
str_ltb-connex (String.◌∷◌ c s) (String.◌∷◌ d t) h k =
    ap₂ String.◌∷◌ (Char-path c d (ground arith)) (str_ltb-connex s t (ground arith) (ground arith))

str_ltb_asym : (s t : String) → str_ltb s t ≡ true → str_ltb t s ≡ false
unfolding str_ltb
str_ltb_asym String.[] String.[] h = cc
str_ltb_asym String.[] (String.◌∷◌ d t) h = refl
str_ltb_asym (String.◌∷◌ c s) String.[] h = cc
str_ltb_asym (String.◌∷◌ c s) (String.◌∷◌ d t) h = ground (arith, str_ltb_asym s t)

pub canonical_pair_comm : (a b : String) → canonical_pair a b ≡ canonical_pair b a
canonical_pair_comm a b = ground (arith, str_ltb_asym a b, str_ltb_asym b a, str_ltb-connex a b)

-- A canonical pair gives its ids but for their order.
pub canonical_pair_injective :
    (a b c d : String)
    → canonical_pair a b ≡ canonical_pair c d
    → ((a ≡ c) × (b ≡ d)) ⊎ ((a ≡ d) × (b ≡ c))
canonical_pair_injective a b c d h = ground arith

-- ===== src/Provisioner/Order.antt =====
-- The orders that the scheduling policies of crates/h2ai-provisioner/src/scheduling.rs sort by.
use h2ai_control_plane.Prelude.{String, ◌≡◌, refl, true, false, arith, ltb}
use h2ai_control_plane.Sorting.{IsStrictWeak}
use h2ai_control_plane.Provisioner.{str_ltb, by_id, less_loaded}

str_ltb_irrefl : (s : String) → str_ltb s s ≡ false
unfolding str_ltb
str_ltb_irrefl String.[] = refl
str_ltb_irrefl (String.◌∷◌ c s) = ground (arith, str_ltb_irrefl s)

str_ltb_trans : (a b c : String) → str_ltb a b ≡ true → str_ltb b c ≡ true → str_ltb a c ≡ true
unfolding str_ltb
str_ltb_trans a String.[] String.[] h k = ground (arith, k)
str_ltb_trans a (String.◌∷◌ y b) String.[] h k = ground (arith, k)
str_ltb_trans String.[] b (String.◌∷◌ z c) h k = refl
str_ltb_trans (String.◌∷◌ x a) String.[] (String.◌∷◌ z c) h k = ground (arith, h)
str_ltb_trans (String.◌∷◌ x a) (String.◌∷◌ y b) (String.◌∷◌ z c) h k =
    ground (arith, str_ltb_trans a b c)

str_ltb-neg_trans :
    (a b c : String) → str_ltb a b ≡ false → str_ltb b c ≡ false → str_ltb a c ≡ false
unfolding str_ltb
str_ltb-neg_trans String.[] String.[] c h k = k
str_ltb-neg_trans String.[] (String.◌∷◌ y b) c h k = ground (arith, h)
str_ltb-neg_trans (String.◌∷◌ x a) b String.[] h k = refl
str_ltb-neg_trans (String.◌∷◌ x a) String.[] (String.◌∷◌ z c) h k = ground (arith, k)
str_ltb-neg_trans (String.◌∷◌ x a) (String.◌∷◌ y b) (String.◌∷◌ z c) h k =
    ground (arith, str_ltb-neg_trans a b c)

pub by_id-IsStrictWeak : IsStrictWeak by_id
by_id-IsStrictWeak = record {
  irrefl = λ a. str_ltb_irrefl a.agent_id;
  trans = λ a b c. str_ltb_trans a.agent_id b.agent_id c.agent_id;
  neg_trans = λ a b c. str_ltb-neg_trans a.agent_id b.agent_id c.agent_id;
}

pub less_loaded-IsStrictWeak : IsStrictWeak less_loaded
less_loaded-IsStrictWeak = record {
  irrefl = λ a. ground (arith, str_ltb_irrefl a.agent_id);
  trans = λ a b c h k. ground (arith, str_ltb_trans a.agent_id b.agent_id c.agent_id);
  neg_trans = λ a b c h k. ground (arith, str_ltb-neg_trans a.agent_id b.agent_id c.agent_id);
}

pub ltb-IsStrictWeak : IsStrictWeak ltb
ltb-IsStrictWeak = record {
  irrefl = λ a. ground arith;
  trans = λ a b c h k. ground arith;
  neg_trans = λ a b c h k. ground arith;
}

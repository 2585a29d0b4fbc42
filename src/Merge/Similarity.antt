-- ===== src/Merge/Similarity.antt =====
-- crates/h2ai-context/src/embedding.rs: the cosine similarity of embeddings; and the similarity by tokens
-- of crates/h2ai-state/src/krum.rs and bft.rs. `F` is `f64`, `G` is `f32`.
use Prim.Native.Char.{Char, code}
use h2ai_control_plane.Prelude.{
  ℕ, ◌+◌, String, Bool, true, false, not, ◌&&◌, ◌||◌, List, [], ◌∷◌, map, ltb, ◌==◌, str_eq,
  eq_string, eq_ℕ, length, is_empty, filter, if◌then◌else◌,
}
use h2ai_control_plane.HashSet
use h2ai_control_plane.Floats.{Floats, sum_from}

-- What the similarities use beside the operations of numbers: conversion, square roots, and the
-- constants -1.0 and 1e-9 of `f32`.
pub record Vectors (F G : Type 0) : Type 0 where
  pub widen : G → F
  pub root : G → G
  pub minus_one : G
  pub tiny : G

-- The bytes of a character in UTF-8.
abbrev pub utf8_bytes : ℕ → ℕ
utf8_bytes c = if ltb c 128 then 1 else if ltb c 2048 then 2 else if ltb c 65536 then 3 else 4

-- `str::len`
abbrev pub byte_len : String → ℕ
byte_len String.[] = 0
byte_len (String.◌∷◌ c s) = utf8_bytes (code c) + byte_len s

-- The first piece, and the rest of the pieces, of a text that is split at what is not alphanumeric.
abbrev pub cut : Bool → Char → String × List String → String × List String
cut true c (piece, pieces) = (String.◌∷◌ c piece, pieces)
cut false c (piece, pieces) = (String.[], piece ∷ pieces)

module _ (is_alphanumeric : Char → Bool) (to_lowercase : String → String) where
  unfoldable pub split : String → String × List String
  split String.[] = (String.[], [])
  split (String.◌∷◌ c s) = cut (is_alphanumeric c) c (split s)

  unfoldable pub tokenize : String → List String
  unfolding split HashSet.extend
  tokenize text =
      let (piece, pieces) = split text in
      HashSet.extend [] (
        filter (λ t. ltb 1 (byte_len t))
          (map to_lowercase (filter (λ t. not (str_eq t "")) (piece ∷ pieces))))

  module _ {F : Type 0} (f : Floats F) where
    -- `both_empty` is 1.0 in krum.rs and 0.0 in bft.rs.
    unfoldable pub token_jaccard : F → String → String → F
    unfolding tokenize HashSet.contains
    token_jaccard both_empty a b =
        let ta = tokenize a in
        let tb = tokenize b in
        let common = length (filter (λ t. HashSet.contains tb t) ta) in
        if is_empty ta && is_empty tb
        then both_empty
        else f.div (f.of_nat common)
            (f.of_nat (length ta + length (filter (λ t. not (HashSet.contains ta t)) tb)))

module _ {F G : Type 0} (f : Floats F) (g : Floats G) (v : Vectors F G) where
  abbrev pub products : List G → List G → List G
  products [] ys = []
  products (x ∷ xs) [] = []
  products (x ∷ xs) (y ∷ ys) = g.mul x y ∷ products xs ys

  abbrev pub norm : List G → G
  norm a = v.root (sum_from g g.zero (products a a))

  abbrev pub clamp : G → G
  clamp x = if g.lt x v.minus_one then v.minus_one else if g.lt g.one x then g.one else x

  unfoldable pub cosine_similarity : List G → List G → F
  cosine_similarity a b =
      if not (length a == length b) || is_empty a
      then f.zero
      else if g.lt (norm a) v.tiny || g.lt (norm b) v.tiny
      then f.zero
      else v.widen (clamp (g.div (sum_from g g.zero (products a b)) (g.mul (norm a) (norm b))))

  -- The similarity of two outputs with their embeddings, as krum.rs and bft.rs have it.
  unfoldable pub embedded_similarity : String × List G → String × List G → F
  unfolding cosine_similarity
  embedded_similarity (s, a) (t, b) =
      if is_empty a || is_empty b
      then (if str_eq s t then f.one else f.zero)
      else f.max (cosine_similarity a b) f.zero

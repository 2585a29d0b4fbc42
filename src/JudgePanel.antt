-- ===== src/JudgePanel.antt =====
-- crates/h2ai-orchestrator/src/judge_panel.rs, with the kinds of adapters and panels of
-- crates/h2ai-types/src/config.rs and judge.rs: the panel that judges a proposal, and its vote.
pub mod Panel
pub mod Vote
use h2ai_control_plane.Prelude.{
  ℕ, ◌+◌, String, Bool, Option, none, some, List, [], ◌∷◌, map, take, any, ◌==◌, leb, is_empty,
  if◌then◌else◌,
}

pub data AdapterFamily : Type 0 where
  anthropic_family open_ai_family local cloud : AdapterFamily

pub data CloudProvider : Type 0 where
  generic llama_cpp gemini : CloudProvider

pub data AdapterKind : Type 0 where
  local_llama_cpp : (model_path : String) (n_threads : ℕ) → AdapterKind
  cloud_generic :
      (endpoint api_key_env : String) (model : Option String) (provider : CloudProvider)
      → AdapterKind
  open_ai : (api_key_env model : String) → AdapterKind
  anthropic : (api_key_env model : String) → AdapterKind
  ollama : (endpoint model : String) → AdapterKind
  a2a :
      (endpoint auth_scheme auth_token_env : String)
      (timeout_minutes poll_interval_ms max_poll_interval_ms agent_card_cache_ttl_s : ℕ)
      → AdapterKind

abbrev pub from_kind : AdapterKind → AdapterFamily
from_kind (anthropic api_key_env model) = anthropic_family
from_kind (open_ai api_key_env model) = open_ai_family
from_kind (local_llama_cpp model_path n_threads) = local
from_kind (ollama endpoint model) = local
from_kind (cloud_generic endpoint api_key_env model provider) = cloud
from_kind (a2a endpoint auth_scheme auth_token_env t p m c) = cloud

-- The derived equality of families compares their discriminants.
abbrev pub discriminant : AdapterFamily → ℕ
discriminant anthropic_family = 0
discriminant open_ai_family = 1
discriminant local = 2
discriminant cloud = 3

-- `&dyn IComputeAdapter`: which adapter it is, and what its `kind()` returns.
pub record Adapter : Type 0 where
  pub reference : ℕ
  pub kind : AdapterKind

abbrev pub family : AdapterKind → ℕ
family kind = discriminant (from_kind kind)

pub data JudgePersona : Type 0 where
  literal contextual skeptical : JudgePersona

pub data PanelDiversityKind : Type 0 where
  cross_family persona_only : PanelDiversityKind

-- A temperature is given by its bits.
pub record RuntimeJudgeVariant : Type 0 where
  pub adapter : Adapter
  pub persona : JudgePersona
  pub temperature_override : Option ℕ

pub record JudgePanel : Type 0 where
  pub variants : List RuntimeJudgeVariant
  pub diversity_kind : PanelDiversityKind

-- `seen_families.insert(fam)` is true for a family that was not seen.
unfoldable pub cross_adapters : List ℕ → List (Adapter × AdapterKind) → List Adapter
cross_adapters seen_families [] = []
cross_adapters seen_families ((adapter, kind) ∷ additional) =
    let seen = cross_adapters seen_families additional in
    let new = cross_adapters (family kind ∷ seen_families) additional in
    if any (λ f. f == family kind) seen_families then seen else adapter ∷ new

abbrev pub literal_variant : Adapter → RuntimeJudgeVariant
literal_variant adapter = record {
  adapter = adapter;
  persona = literal;
  temperature_override = none;
}

abbrev pub panel_of : Adapter → List Adapter → JudgePanel
panel_of primary [] = record {
  variants = literal_variant primary ∷ [];
  diversity_kind = persona_only;
}
panel_of primary (a ∷ cross) = record {
  variants = literal_variant primary ∷ map literal_variant (a ∷ cross);
  diversity_kind = cross_family;
}

-- `JudgePanel::build`
unfoldable pub build : Adapter → List (Adapter × AdapterKind) → JudgePanel
unfolding cross_adapters
build primary additional =
    panel_of primary (take 2 (cross_adapters (family primary.kind ∷ []) additional))

pub data ConstraintVerdict : Type 0 where
  pass failed : ConstraintVerdict
  uncertain : (votes_pass votes_fail : ℕ) → ConstraintVerdict

-- `aggregate_votes`, where `quorum total` is `(total as f64 * quorum_fraction).ceil() as usize`.
unfoldable pub aggregate_votes : (ℕ → ℕ) → ℕ → ℕ → PanelDiversityKind → ConstraintVerdict
aggregate_votes quorum votes_pass votes_fail cross_family =
    if votes_pass + votes_fail == 0
    then uncertain 0 0
    else if leb (quorum (votes_pass + votes_fail)) votes_pass
    then pass
    else if leb (quorum (votes_pass + votes_fail)) votes_fail
    then failed
    else uncertain votes_pass votes_fail
aggregate_votes quorum votes_pass votes_fail persona_only =
    if votes_pass + votes_fail == 0
    then uncertain 0 0
    else if votes_fail == 0
    then pass
    else if votes_pass == 0
    then failed
    else uncertain votes_pass votes_fail

-- ===== src/Identity.antt =====
-- crates/h2ai-types/src/identity.rs: the identifiers. Each is a newtype over a UUID or a string.
use Prim.Native.Char.{Char, code}
use h2ai_control_plane.Prelude.{ℕ, String, ◌≡◌, Bool, ◌||◌, ◌==◌, if◌then◌else◌}

-- A 128-bit value of the `uuid` crate.
abbrev pub Uuid : Type 0
Uuid = ℕ

abbrev pub TaskId : Type 0
TaskId = Uuid

abbrev pub ExplorerId : Type 0
ExplorerId = Uuid

abbrev pub SubtaskId : Type 0
SubtaskId = Uuid

abbrev pub AgentId : Type 0
AgentId = String

abbrev pub TenantId : Type 0
TenantId = String

abbrev pub default_tenant : TenantId
default_tenant = "default"

-- What the program uses of the `uuid` crate: a printed UUID determines the UUID.
pub record UuidFormat : Type 0 where
  pub to_string : Uuid → String
  pub to_string_injective : (a b : Uuid) → to_string a ≡ to_string b → a ≡ b

is_underscore : Char → Bool
is_underscore c = code c == b'_'

-- `TenantId::bucket_safe`, over the standard library's test for letters and digits.
module _ (is_alphanumeric : Char → Bool) where
  safe_char : Char → Char
  safe_char c = if is_alphanumeric c || is_underscore c then c else "_"

  unfoldable pub bucket_safe : TenantId → String
  unfolding safe_char is_underscore
  bucket_safe String.[] = String.[]
  bucket_safe (String.◌∷◌ c s) = String.◌∷◌ (safe_char c) (bucket_safe s)

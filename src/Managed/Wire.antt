-- ===== src/Managed/Wire.antt =====
-- What the conversions of framework_state.rs use of `serde_json`: values of more types than text, and
-- the derived encodings of the types that a record nests. The laws say that what was encoded is
-- decoded, and that a text is not null.
use lumic.Prelude.{ℕ, ◌<◌, ◌^◌, ◌≡◌, String, Bool, true, false, Option, some, List, ◌⊎◌, inr}
use lumic.Json.{Json}
use lumic.Resource.{Entries}
use lumic.Managed.{ServiceDependency, BackupStatus}

-- `json!` and `from_value` at a type, with the text of the error
pub record Serde (T V : Type 0) : Type 0 where
  pub to_value : T → V
  pub from_value : V → String ⊎ T
  pub from_value-to_value : (t : T) → from_value (to_value t) ≡ inr t

pub record Wire (V : Type 0) : Type 0 where
  pub json : Json V
  pub null : V
  pub is_null : V → Bool
  pub from_u64 : ℕ → V
  pub as_u64 : V → Option ℕ
  pub texts : Serde (List String) V
  pub settings : Serde (Entries String) V
  pub dependencies : Serde (List ServiceDependency) V
  pub status : Serde BackupStatus V
  pub is_null-null : is_null null ≡ true
  pub is_null-from_str : (s : String) → is_null (json.from_str s) ≡ false
  pub as_u64-from_u64 : (n : ℕ) → n < 2 ^ 64 → as_u64 (from_u64 n) ≡ some n

instance abbrev pub wire_json : {V : Type 0} ⦃wire : Wire V⦄ → Json V
wire_json ⦃wire⦄ = wire.json

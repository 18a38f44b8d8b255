-- ===== src/Json.antt =====
-- `serde_json::Value`, which the crates use as an opaque type: what they read from it and build.
-- An instance is the library that the program links. The laws say that a text or a number that
-- was wrapped is read back.
use lumic.Prelude.{
  ℕ, ℤ, pos, PartialEq, string_eq, String, ◌≡◌, ◌↔◌, refl, Bool, true, false, not, Option, none,
  some, starts_with, nat_beq, nat_beq_iff, eq_iff, arith, ◌==◌, if◌then◌else◌,
}

pub record Json (V : Type 0) : Type 0 where
  pub as_str : V → Option String
  pub from_str : String → V
  pub from_bool : Bool → V
  pub as_str-from_str : (s : String) → as_str (from_str s) ≡ some s

abbrev pub is_secret_text : Option String → Bool
is_secret_text none = false
is_secret_text (some text) = starts_with text "secret://"

-- `value.as_str().is_some_and(|text| text.starts_with("secret://"))`
abbrev pub is_secret : {V : Type 0} ⦃json : Json V⦄ → V → Bool
is_secret ⦃json⦄ value = is_secret_text (json.as_str value)

-- The cases of a value that a configuration may have; `compound` is null, an array or an object, and
-- a number comes with the text that `to_string` gives.
pub data View : Type 0 where
  string : String → View
  number : String → View
  boolean : Bool → View
  compound : View

-- The same library, for the code that looks into numbers and compares values.
pub record Values (V : Type 0) : Type 0 where
  pub json : Json V
  pub equal : PartialEq V
  pub view : V → View
  pub as_i64 : V → Option ℤ
  pub as_u64 : V → Option ℕ

-- A small concrete library of values.
pub data Sample : Type 0 where
  text : String → Sample
  flag : Bool → Sample
  amount : ℕ → Sample

abbrev pub sample_str : Sample → Option String
sample_str (text s) = some s
sample_str (flag _) = none
sample_str (amount _) = none

instance abbrev pub sample_json : Json Sample
sample_json = record {
  as_str = sample_str;
  from_str = text;
  from_bool = flag;
  as_str-from_str = λ s. refl;
}

abbrev sample_amount : Sample → Option ℕ
sample_amount (amount n) = some n
sample_amount _ = none

abbrev sample_integer : Sample → Option ℤ
sample_integer (amount n) = some (pos n)
sample_integer _ = none

abbrev sample_view : Sample → View
sample_view (text s) = View.string s
sample_view (flag b) = View.boolean b
sample_view (amount n) = View.number (if nat_beq n 0 then "0" else "1")

abbrev sample_beq : Sample → Sample → Bool
sample_beq (text s) (text t) = s == t
sample_beq (flag a) (flag b) = if a then b else not b
sample_beq (amount m) (amount n) = nat_beq m n
sample_beq _ _ = false

pub sample_beq_iff : (a b : Sample) → (sample_beq a b ≡ true) ↔ (a ≡ b)
sample_beq_iff (text s) (text t) = ground (arith, eq_iff s t)
sample_beq_iff (text s) (flag b) = ground arith
sample_beq_iff (text s) (amount n) = ground arith
sample_beq_iff (flag a) (text t) = ground arith
sample_beq_iff (flag true) (flag b) = ground arith
sample_beq_iff (flag false) (flag b) = ground arith
sample_beq_iff (flag a) (amount n) = ground arith
sample_beq_iff (amount m) (text t) = ground arith
sample_beq_iff (amount m) (flag b) = ground arith
sample_beq_iff (amount m) (amount n) = ground (arith, nat_beq_iff m n)

instance abbrev pub sample_values : Values Sample
sample_values = record {
  json = sample_json;
  equal = record { test = sample_beq; agrees = sample_beq_iff };
  view = sample_view;
  as_i64 = sample_integer;
  as_u64 = sample_amount;
}

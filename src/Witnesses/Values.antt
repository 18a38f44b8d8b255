-- ===== src/Witnesses/Values.antt =====
-- A small library of JSON values for the tests of the records that are encoded.
use lumic.Prelude.{ℕ, refl, String, Bool, true, false, Option, none, some, List, ◌⊎◌, inl, inr}
use lumic.Resource.{Entries}
use lumic.Managed.{ServiceDependency, BackupStatus}
use lumic.Managed.Wire.{Wire}

pub data Value : Type 0 where
  text : String → Value
  number : ℕ → Value
  nothing : Value
  texts : List String → Value
  settings : Entries String → Value
  dependencies : List ServiceDependency → Value
  status : BackupStatus → Value

abbrev pub value_str : Value → Option String
value_str (text s) = some s
value_str _ = none

abbrev pub is_nothing : Value → Bool
is_nothing nothing = true
is_nothing _ = false

abbrev pub value_number : Value → Option ℕ
value_number (number n) = some n
value_number _ = none

abbrev pub as_texts : Value → String ⊎ List String
as_texts (texts t) = inr t
as_texts _ = inl "expected a sequence"

abbrev pub as_settings : Value → String ⊎ Entries String
as_settings (settings s) = inr s
as_settings _ = inl "expected a map"

abbrev pub as_dependencies : Value → String ⊎ List ServiceDependency
as_dependencies (dependencies d) = inr d
as_dependencies _ = inl "expected a sequence"

abbrev pub as_status : Value → String ⊎ BackupStatus
as_status (status s) = inr s
as_status _ = inl "expected a status"

instance abbrev pub value_wire : Wire Value
value_wire = record {
  json = record {
    as_str = value_str;
    from_str = text;
    from_bool = λ b. nothing;
    as_str-from_str = λ s. refl;
  };
  null = nothing;
  is_null = is_nothing;
  from_u64 = number;
  as_u64 = value_number;
  texts = record { to_value = texts; from_value = as_texts; from_value-to_value = λ t. refl };
  settings = record {
    to_value = settings;
    from_value = as_settings;
    from_value-to_value = λ t. refl;
  };
  dependencies = record {
    to_value = dependencies;
    from_value = as_dependencies;
    from_value-to_value = λ t. refl;
  };
  status = record { to_value = status; from_value = as_status; from_value-to_value = λ t. refl };
  is_null-null = refl;
  is_null-from_str = λ s. refl;
  as_u64-from_u64 = λ n h. refl;
}

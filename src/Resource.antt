-- ===== src/Resource.antt =====
-- crates/lumic-core/src/resource.rs: the identity of a resource, its outputs and its record.
use Prim.Native.String
use Prim.Native.Nat.{compare, Ordering}
use lumic.Prelude.{
  map, ◌+◌, ℕ, String, ◌≡◌, ◌↔◌, Bool, true, false, not, ◌&&◌, ◌||◌, List, arith, leb, ltb, nat_beq,
  PartialEq, ◌==◌, codes, len, ◌<>◌, all, first, empty, is_ascii_lowercase, is_ascii_digit,
  string_eq, nat_eq, eq_iff, if◌then◌else◌,
}
use lumic.Error.{Result, Check, ok, invalid, ensure, reject_if, each, ◌>>◌}
use lumic.Json.{Json, is_secret}

pub data ResourceKind : Type 0 where
  «package» component runtime managed_service service_resource endpoint : ResourceKind
  application process schedule artifact certificate pipeline : ResourceKind

-- the discriminant, by which the derived `Ord` and `PartialEq` compare
abbrev pub discriminant : ResourceKind → ℕ
discriminant «package» = 0
discriminant component = 1
discriminant runtime = 2
discriminant managed_service = 3
discriminant service_resource = 4
discriminant endpoint = 5
discriminant application = 6
discriminant process = 7
discriminant schedule = 8
discriminant artifact = 9
discriminant certificate = 10
discriminant pipeline = 11

pub record ResourceRef : Type 0 where
  pub kind : ResourceKind
  pub id : String

-- the derived `PartialEq`
unfoldable pub kind_beq : ResourceKind → ResourceKind → Bool
kind_beq a b = nat_beq (discriminant a) (discriminant b)

pub kind_beq_iff : (a b : ResourceKind) → (kind_beq a b ≡ true) ↔ (a ≡ b)
unfolding kind_beq
kind_beq_iff a b = ground arith

instance abbrev pub kind_eq : PartialEq ResourceKind
kind_eq = record { test = kind_beq; agrees = kind_beq_iff }

unfoldable pub ref_beq : ResourceRef → ResourceRef → Bool
unfolding kind_beq
ref_beq a b = kind_beq a.kind b.kind && (a.id == b.id)

pub ref_beq_iff : (a b : ResourceRef) → (ref_beq a b ≡ true) ↔ (a ≡ b)
unfolding ref_beq
ref_beq_iff a b = ground (arith, kind_beq_iff a.kind b.kind, eq_iff a.id b.id)

instance abbrev pub ref_eq : PartialEq ResourceRef
ref_eq = record { test = ref_beq; agrees = ref_beq_iff }

-- the derived `Ord`: by kind, then by id in byte order
unfoldable pub ref_lt : ResourceRef → ResourceRef → Bool
ref_lt a b = elim (compare (discriminant a.kind) (discriminant b.kind)) [
  | Ordering.lt ↦ true
  | Ordering.gt ↦ false
  | Ordering.eq ↦ elim (Prim.Native.String.compare a.id b.id) [ Ordering.lt ↦ true | _ ↦ false ]
]

abbrev pub is_id_char : ℕ → Bool
is_id_char c =
    is_ascii_lowercase c || is_ascii_digit c || (nat_beq c b'-' || nat_beq c b'_' || nat_beq c b'.')

-- the test `valid` of `validate_resource_id`
unfoldable pub is_resource_id : String → Bool
is_resource_id value =
    not (empty value)
    && leb (len value) 128
    && first is_ascii_lowercase (codes value)
    && all is_id_char (codes value)

abbrev pub id_rule : String
id_rule =
    "must start with a lowercase letter and contain lowercase letters, digits, '-', '_', or '.'"

unfoldable pub validate_resource_id : String → String → Check
unfolding is_resource_id
validate_resource_id field value = ensure (is_resource_id value) (invalid field id_rule)

unfoldable pub validate_output_name : String → String → Check
validate_output_name field value = validate_resource_id field value

unfoldable pub validate_ref : ResourceRef → Check
validate_ref resource = validate_resource_id "resource.id" resource.id

unfoldable pub new_ref : ResourceKind → String → Result ResourceRef
new_ref kind id = do
  let resource : ResourceRef = record { kind = kind; id = id }
  validate_ref resource
  ok resource

-- `format!("{:?}", kind)`
abbrev pub debug_name : ResourceKind → String
debug_name «package» = "Package"
debug_name component = "Component"
debug_name runtime = "Runtime"
debug_name managed_service = "ManagedService"
debug_name service_resource = "ServiceResource"
debug_name endpoint = "Endpoint"
debug_name application = "Application"
debug_name process = "Process"
debug_name schedule = "Schedule"
debug_name artifact = "Artifact"
debug_name certificate = "Certificate"
debug_name pipeline = "Pipeline"

-- `to_ascii_lowercase`, on code points
abbrev pub lower : ℕ → ℕ
lower c = if leb b'A' c && leb c b'Z' then c + 32 else c

-- the text of the key, as its code points
unfoldable pub key : ResourceRef → List ℕ
key resource = map lower (codes (debug_name resource.kind <> (":" <> resource.id)))

-- `BTreeMap<String, V>`: an association list by key
abbrev pub Entries {ℓ} : Type ℓ → Type ℓ
Entries V = List (String × V)

pub record ResourceOutput (V : Type 0) : Type 0 where
  pub value : V
  pub sensitive : Bool
  pub updated_at_unix_ms : ℕ

pub record ResourceRecord (V : Type 0) : Type 0 where
  pub resource : ResourceRef
  pub attributes : Entries V
  pub outputs : Entries (ResourceOutput V)
  pub created_at_unix_ms : ℕ
  pub updated_at_unix_ms : ℕ

abbrev pub secret_rule : String
secret_rule = "sensitive outputs must contain a secret reference"

module _ {V : Type 0} ⦃json : Json V⦄ where
  unfoldable pub validate_output : String → ResourceOutput V → Check
  unfolding validate_output_name validate_resource_id
  validate_output name output = do
    validate_output_name "output.name" name
    reject_if (output.sensitive && not (is_secret output.value))
        (invalid "output.value" secret_rule)

  unfoldable pub validate_record : ResourceRecord V → Check
  unfolding validate_output validate_ref
  validate_record r = do
    validate_ref r.resource
    reject_if (ltb r.updated_at_unix_ms r.created_at_unix_ms)
        (invalid "resource.updated_at_unix_ms" "must not precede creation")
    each (λ entry. validate_output entry.0 entry.1) r.outputs

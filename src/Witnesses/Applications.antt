-- ===== src/Witnesses/Applications.antt =====
-- Lifecycle plans at concrete inputs.
use lumic.Prelude.{◌≡◌, refl, List, String, map, [], ◌∷◌, ◌++◌, none, true, All}
use lumic.Error.{ok}
use lumic.Json.{Sample, sample_json}
use lumic.Resource.{ResourceKind}
use lumic.Application.{default_health, validate_slug}
use lumic.Package.{built_in_policy, ReviewedPackageRequirement, default_catalog, review_names}
use lumic.Package.Trust.{name_of, IsTrusted, review_names-IsTrusted}
use lumic.Lifecycle.{
  ApplicationLifecycleOperation, install, remove, GenericPhpApplicationSpec, package_reason,
}
use lumic.Lifecycle.Plan.{human_plan}
use lumic.Lifecycle.Steps.{ApplicationLifecyclePlan, body_steps, commit_step, removal_steps}
use lumic.Lifecycle.Laws.{IsOwn, removal_steps-IsOwn}
use lumic.Witnesses.{shop}

abbrev shop_spec : GenericPhpApplicationSpec
shop_spec = record {
  id = "shop";
  domain = "shop.example";
  www_alias = true;
  root = "/srv/shop";
  php_version = "8.3";
  repository = none;
  components = "curl" ∷ [];
  databases = [];
  packages = "git" ∷ [];
  tls = true;
  processes = [];
  health = default_health;
}

abbrev install_shop : ApplicationLifecyclePlan Sample
install_shop = record {
  operation = install;
  plan = human_plan shop_spec install;
  pipeline = record {
    id = "application-shop-install";
    target = shop;
    summary = "Install generic PHP application shop";
    steps = body_steps shop_spec install ++ commit_step ∷ [];
  };
  package_requirements =
      record {
        requirement = record { name = record { text = "git" }; reason = package_reason };
        trust_source = built_in_policy;
      }
      ∷ [];
}

removal_steps-IsOwn_example : All (IsOwn Sample) (removal_steps shop_spec)
removal_steps-IsOwn_example = removal_steps-IsOwn Sample shop_spec

abbrev trusted_names : List String
trusted_names = "php8.3-cli" ∷ "git" ∷ []

abbrev reviewed_as : String → ReviewedPackageRequirement
reviewed_as name = record {
  requirement = record { name = record { text = name }; reason = package_reason };
  trust_source = built_in_policy;
}

reviewing :
    review_names default_catalog trusted_names package_reason ≡ ok (map reviewed_as trusted_names)
unfolding review_names lumic.Package.review_name lumic.Package.parse_package lumic.Package.review
    lumic.Package.authorize
reviewing = refl

review_names-IsTrusted_example :
    (map name_of (map reviewed_as trusted_names) ≡ trusted_names)
    × All (IsTrusted default_catalog) trusted_names
review_names-IsTrusted_example =
    review_names-IsTrusted default_catalog trusted_names package_reason
      (map reviewed_as trusted_names) reviewing

shop_slug : validate_slug "application" "shop-2" ≡ ok tt
unfolding validate_slug lumic.Application.is_slug
shop_slug = refl

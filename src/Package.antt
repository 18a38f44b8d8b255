-- ===== src/Package.antt =====
-- crates/lumic-core/src/package.rs: package names, and the policy that says which are trusted.
pub mod Trust
use lumic.Prelude.{
  ℕ, String, Bool, not, ◌&&◌, ◌||◌, List, [], ◌∷◌, leb, ltb, nat_beq, string_eq, codes, len, ◌<>◌,
  empty, all, first, contains, is_blank, is_ascii_lowercase, is_ascii_digit, is_ascii_alphanumeric,
}
use lumic.Error.{
  Result, Check, ok, policy_denied, invalid, ensure, reject_if, traverse, ◌>>=◌, ◌>>◌,
}
use lumic.Application.{has_break}

-- `PackageName`, whose values all come from `parse`
pub record PackageName : Type 0 where
  pub text : String

abbrev pub is_package_char : ℕ → Bool
is_package_char c =
    is_ascii_lowercase c || is_ascii_digit c || (nat_beq c b'+' || nat_beq c b'-' || nat_beq c b'.')

unfoldable pub parse_package : String → Result PackageName
parse_package value = do
  ensure
      (not (empty value)
        && leb (len value) 128
        && all is_package_char (codes value)
        && first is_ascii_alphanumeric (codes value))
      (invalid "package"
        "must be a Debian package identifier (lowercase letters, digits, +, - and .)")
  ok (record { text = value })

pub record PackageRequirement : Type 0 where
  pub name : PackageName
  pub reason : String

pub data PackageTrustSource : Type 0 where
  built_in_policy : PackageTrustSource

pub record ReviewedPackageRequirement : Type 0 where
  pub requirement : PackageRequirement
  pub trust_source : PackageTrustSource

-- `PackagePolicy`: the texts of the allowed names
abbrev pub PackagePolicy : Type 0
PackagePolicy = List String

abbrev pub default_catalog : PackagePolicy
default_catalog =
    "ca-certificates" ∷ "certbot" ∷ "apache2" ∷ "composer" ∷ "curl" ∷ "default-mysql-server"
    ∷ "ffmpeg" ∷ "git" ∷ "nginx" ∷ "meilisearch" ∷ "valkey-server" ∷ "rabbitmq-server" ∷ "minio"
    ∷ "opensearch" ∷ "memcached" ∷ "mongodb-org" ∷ "clickhouse-server" ∷ "prometheus" ∷ "grafana"
    ∷ "loki" ∷ "nodejs" ∷ "npm" ∷ "php" ∷ "php-cli" ∷ "php-common" ∷ "php-curl" ∷ "php-fpm"
    ∷ "php-intl" ∷ "php-mysql" ∷ "php-mbstring" ∷ "php-xml" ∷ "php-zip" ∷ "php8.1-cli"
    ∷ "php8.1-curl" ∷ "php8.1-fpm" ∷ "php8.1-intl" ∷ "php8.1-mbstring" ∷ "php8.1-mysql"
    ∷ "php8.1-xml" ∷ "php8.1-zip" ∷ "php8.2-cli" ∷ "php8.2-curl" ∷ "php8.2-fpm" ∷ "php8.2-intl"
    ∷ "php8.2-mbstring" ∷ "php8.2-mysql" ∷ "php8.2-xml" ∷ "php8.2-zip" ∷ "php8.3-cli"
    ∷ "php8.3-curl" ∷ "php8.3-fpm" ∷ "php8.3-intl" ∷ "php8.3-mbstring" ∷ "php8.3-mysql"
    ∷ "php8.3-xml" ∷ "php8.3-zip" ∷ "php8.4-cli" ∷ "php8.4-curl" ∷ "php8.4-fpm" ∷ "php8.4-intl"
    ∷ "php8.4-mbstring" ∷ "php8.4-mysql" ∷ "php8.4-xml" ∷ "php8.4-zip" ∷ "python3-certbot-nginx"
    ∷ "postgresql" ∷ "redis-server" ∷ "typesense-server" ∷ []

abbrev pub with_trusted : PackagePolicy → PackageName → PackagePolicy
with_trusted policy name = name.text ∷ policy

unfoldable pub authorize : PackagePolicy → PackageName → Check
authorize policy name =
    ensure (contains policy name.text) (policy_denied ("package.install." <> name.text))

unfoldable pub review : PackagePolicy → PackageRequirement → Result ReviewedPackageRequirement
review policy requirement = do
  reject_if
      (is_blank requirement.reason
        || ltb 256 (len requirement.reason)
        || has_break requirement.reason)
      (invalid "package.reason" "must be a short, non-empty explanation")
  authorize policy requirement.name
  ok (record { requirement = requirement; trust_source = built_in_policy })

unfoldable pub review_name : PackagePolicy → String → String → Result ReviewedPackageRequirement
review_name policy reason name = do
  parsed ← parse_package name
  review policy (record { name = parsed; reason = reason })

unfoldable pub review_names :
    PackagePolicy → List String → String → Result (List ReviewedPackageRequirement)
review_names policy names reason = traverse (review_name policy reason) names

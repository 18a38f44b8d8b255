-- ===== src/Package/Trust.antt =====
-- What the review of package names lets through.
use lumic.Prelude.{
  String, ◌≡◌, ap, ap₂, subst, true, not, ◌&&◌, ◌||◌, List, [], ◌∷◌, map, All, In, contains,
  contains_iff, string_eq, empty, codes, len, leb, ltb, all, first, is_ascii_alphanumeric, is_blank,
}
use lumic.Error.{ok, ensure, reject_if, >>=-eq-ok, ensure-eq-ok, ok-injective}
use lumic.Application.{has_break}
use lumic.Package.{
  PackagePolicy, PackageName, PackageRequirement, ReviewedPackageRequirement, is_package_char,
  parse_package, authorize, review, review_name, review_names,
}

abbrev pub name_of : ReviewedPackageRequirement → String
name_of r = r.requirement.name.text

-- what may stand in a name
abbrev pub IsName : String → Type 0
IsName name =
    (not (empty name)
      && leb (len name) 128
      && all is_package_char (codes name)
      && first is_ascii_alphanumeric (codes name))
    ≡ true

parse_package-IsName :
    (name : String) (p : PackageName) → parse_package name ≡ ok p → IsName name × (p.text ≡ name)
unfolding parse_package
parse_package-IsName name p h =
    let (_, valid, made) =
      >>=-eq-ok
        (ensure
          (not (empty name)
            && leb (len name) 128
            && all is_package_char (codes name)
            && first is_ascii_alphanumeric (codes name))
          _)
        _ h in
    (ensure-eq-ok _ _ valid, ap (λ (q : PackageName). q.text) (sym_of made))
  where
    sym_of : {a b : PackageName} → ok a ≡ ok b → b ≡ a
    sym_of e = cc

review-Trusted :
    (policy : PackagePolicy) (r : PackageRequirement) (out : ReviewedPackageRequirement)
    → review policy r ≡ ok out
    → (r ≡ out.requirement) × In r.name.text policy
unfolding review authorize
review-Trusted policy r out h =
    let (_, _, h₁) =
      >>=-eq-ok (reject_if (is_blank r.reason || ltb 256 (len r.reason) || has_break r.reason) _) _
        h in
    let (_, trusted, made) = >>=-eq-ok (ensure (contains policy r.name.text) _) _ h₁ in
    (
      ap (λ (x : ReviewedPackageRequirement). x.requirement) (ok-injective made),
      (contains_iff policy r.name.text).0 (ensure-eq-ok _ _ trusted),
    )

-- a name that the policy may let through
abbrev pub IsTrusted : PackagePolicy → String → Type 0
IsTrusted policy name = IsName name × In name policy

review_name-IsTrusted :
    (policy : PackagePolicy) (reason name : String) (out : ReviewedPackageRequirement)
    → review_name policy reason name ≡ ok out
    → (name_of out ≡ name) × IsTrusted policy name
unfolding review_name
review_name-IsTrusted policy reason name out h =
    let (p, parsed, reviewed) = >>=-eq-ok (parse_package name) _ h in
    let (valid, same) = parse_package-IsName name p parsed in
    let (kept, listed) =
      review-Trusted policy (record { name = p; reason = reason }) out reviewed in
    let text : p.text ≡ name_of out = ap (λ (r : PackageRequirement). r.name.text) kept in
    (cc (text, same), (valid, subst (λ n. In n policy) same listed))

-- Where the review of a list of package names succeeds, it gives back a requirement for each of the
-- names in their order, and every name is a package identifier that the policy lists.
pub review_names-IsTrusted :
    (policy : PackagePolicy) (names : List String) (reason : String)
    (out : List ReviewedPackageRequirement)
    → review_names policy names reason ≡ ok out
    → (map name_of out ≡ names) × All (IsTrusted policy) names
unfolding review_names
review_names-IsTrusted policy [] reason out h = (ap (map name_of) (back h), tt)
  where
    back : {a b : List ReviewedPackageRequirement} → ok a ≡ ok b → b ≡ a
    back e = cc
review_names-IsTrusted policy (name ∷ names) reason out h =
    let (r, one, h₁) = >>=-eq-ok (review_name policy reason name) _ h in
    let (rs, more, made) = >>=-eq-ok (review_names policy names reason) _ h₁ in
    let (same, trusted) = review_name-IsTrusted policy reason name r one in
    let (others, all_trusted) = review_names-IsTrusted policy names reason rs more in
    subst (λ o. (map name_of o ≡ name ∷ names) × All (IsTrusted policy) (name ∷ names))
      (ok-injective made) (ap₂ (λ x xs. x ∷ xs) same others, (trusted, all_trusted))

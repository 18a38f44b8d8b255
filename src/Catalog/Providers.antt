-- ===== src/Catalog/Providers.antt =====
-- What the catalog holds after it is loaded, and which service it gives for a capability.
use lumic.Prelude.{
  String, true, false, ◌≡◌, refl, ap, sym, ◌∙◌, subst, inl, inr, Option, none, some, List, [], ◌∷◌,
  string_eq, ==_refl, In, All, Distinct, keep, is_some, In-keep,
}
use lumic.Error.{Result, Check, ok, err, >>=-eq-ok, ok-injective, reject_if, reject_if-eq-ok}
use lumic.Json.{Values}
use lumic.Resource.{Entries}
use lumic.Configuration.{get, insert}
use lumic.Configuration.Lookup.{get-insert, insert-kept, insert-absent}
use lumic.Catalog.{
  ServiceDefinition, validate_service_definition, validate_runtime_definition,
  validate_application_definition, validate_capability,
}
use lumic.Catalog.Loading.{
  Toml, Catalog, parse_toml, insert_unique, load, from_documents, provides, values_of, one_provider,
  service_for_capability,
}

module _ {D : Type 0} (parse : String → Result D) (validate : D → Check) (id_of : D → String) where
  -- the document is a valid definition, and the map has it under its id
  abbrev pub IsLoaded : Entries D → String → Type 0
  IsLoaded out document =
      (d : D) × (parse document ≡ ok d) × (validate d ≡ ok tt) × (get (id_of d) out ≡ some d)

  abbrev pub id_in : Result D → List String → List String
  id_in (ok d) ids = id_of d ∷ ids
  id_in (err _) ids = ids

  -- the ids of the documents that parse
  abbrev pub ids_of : List String → List String
  ids_of [] = []
  ids_of (document ∷ documents) = id_in (parse document) (ids_of documents)

  -- What a loop that starts with `m` leaves: the entries of `m` stay, every document is loaded, the
  -- ids of the documents differ from those of `m` and from each other.
  pub record Loaded (m : Entries D) (documents : List String) (out : Entries D) : Type 0 where
    pub kept : (k : String) (d : D) → get k m ≡ some d → get k out ≡ some d
    pub found : All (IsLoaded out) documents
    pub absent : (k : String) → In k (ids_of documents) → get k m ≡ none
    pub distinct : Distinct (ids_of documents)

  none_of : (o : Option D) → is_some o ≡ false → o ≡ none
  none_of none h = refl
  none_of (some d) h = cc

  absent_id :
      (m : Entries D) (ids : List String) (id k : String) (d : D)
      → get id m ≡ none
      → ((j : String) → In j ids → get j (insert id d m) ≡ none)
      → In k (id ∷ ids)
      → get k m ≡ none
  absent_id m ids id k d fresh absent (inl q) = ap (λ j. get j m) q ∙ fresh
  absent_id m ids id k d fresh absent (inr i) = insert-absent m id k d (absent k i)

  load_step :
      (document : String) (documents : List String) (m out : Entries D) (d : D)
      → parse document ≡ ok d
      → validate d ≡ ok tt
      → get (id_of d) m ≡ none
      → Loaded (insert (id_of d) d m) documents out
      → Loaded m (document ∷ documents) out
  load_step document documents m out d parsed valid fresh rest =
      let id = id_of d in
      let here = get-insert id id d m ∙ (rw (==_refl id) refl) in
      record {
        kept = λ k e p. rest.kept k e (insert-kept m id k d e fresh p);
        found = ((d, parsed, valid, rest.kept id d here), rest.found);
        absent = λ k i. absent_id m (ids_of documents) id k d fresh rest.absent (rw parsed at i);
        distinct = rw parsed (λ i. cc (rest.absent id i, here), rest.distinct);
      }

  load-Loaded :
      (m out : Entries D) (documents : List String)
      → load parse validate id_of m documents ≡ ok out
      → Loaded m documents out
  unfolding load insert_unique
  load-Loaded m out [] h = record {
    kept = λ k d p. subst (λ n. get k n ≡ some d) (ok-injective h) p;
    found = tt;
    absent = λ k i. absurd i;
    distinct = tt;
  }
  load-Loaded m out (document ∷ documents) h =
      let (d, parsed, h1) = >>=-eq-ok (parse document) _ h in
      let (_, valid, h2) = >>=-eq-ok (validate d) _ h1 in
      let (next, step, h3) = >>=-eq-ok (insert_unique m (id_of d) d) _ h2 in
      let (_, fresh, put) = >>=-eq-ok (reject_if (is_some (get (id_of d) m)) _) _ step in
      load_step document documents m out d parsed valid (none_of _ (reject_if-eq-ok _ _ fresh)) (
        subst (λ n. Loaded n documents out) (sym (ok-injective put))
          (load-Loaded next out documents h3))

module _ {V : Type 0} ⦃values : Values V⦄ where
  -- what an answer says of the services
  abbrev pub Answers : String → List (ServiceDefinition V) → Option (ServiceDefinition V) → Type 0
  Answers capability services none =
      (s : ServiceDefinition V) → In s services → provides capability s ≡ true → ⊥
  Answers capability services (some service) =
      In service services
      × (provides capability service ≡ true)
      × ((s : ServiceDefinition V) → In s services → provides capability s ≡ true → s ≡ service)

  one_of : (s t service : ServiceDefinition V) → t ≡ service → In s (t ∷ []) → s ≡ service
  one_of s t service same (inl p) = p ∙ same
  one_of s t service same (inr i) = absurd i

  one_provider-Answers :
      (capability : String) (services found : List (ServiceDefinition V))
      (answer : Option (ServiceDefinition V))
      → keep (provides capability) services ≡ found
      → one_provider capability found ≡ ok answer
      → Answers capability services answer
  one_provider-Answers capability services [] none is h =
      λ s place p. subst (In s) is ((In-keep (provides capability) s services).1 (place, p))
  one_provider-Answers capability services [] (some t) is h = cc
  one_provider-Answers capability services (t ∷ []) none is h = cc
  one_provider-Answers capability services (t ∷ []) (some service) is h =
      let same : t ≡ service = cc in
      let (place, p) =
        (In-keep (provides capability) t services).0 (subst (In t) (sym is) (inl refl)) in
      (
        subst (λ s. In s services) same place,
        subst (λ s. provides capability s ≡ true) same p,
        λ s i q.
            one_of s t service same
              (subst (In s) is ((In-keep (provides capability) s services).1 (i, q))),
      )
  one_provider-Answers capability services (_ ∷ _ ∷ _) answer is h = cc

  -- Where the look-up of a capability succeeds, it gives the one service of the catalog that
  -- provides the capability, or nothing when no service does.
  pub service_for_capability-Answers :
      (catalog : Catalog V) (capability : String) (answer : Option (ServiceDefinition V))
      → service_for_capability catalog capability ≡ ok answer
      → Answers capability (values_of catalog.services) answer
  unfolding service_for_capability
  service_for_capability-Answers catalog capability answer h =
      let (_, _, h') = >>=-eq-ok (validate_capability "requirements.capability" capability) _ h in
      one_provider-Answers capability (values_of catalog.services) _ answer refl h'

  -- the three maps hold what the documents define
  abbrev pub HoldsDocuments :
      Toml V → (services runtimes applications : List String) → Catalog V → Type 0
  HoldsDocuments toml services runtimes applications catalog =
      Loaded (λ document. parse_toml "service" (toml.service document)) validate_service_definition
        (λ d. d.id) [] services catalog.services
      × Loaded (λ document. parse_toml "runtime" (toml.runtime document))
          validate_runtime_definition (λ d. d.id) [] runtimes catalog.runtimes
      × Loaded (λ document. parse_toml "application" (toml.application document))
          validate_application_definition (λ d. d.id) [] applications catalog.applications

  -- Where the catalog is loaded, every document parses to a valid definition, the catalog has that
  -- definition under its id, and no two documents of a kind have the same id.
  pub from_documents-HoldsDocuments :
      (toml : Toml V) (services runtimes applications : List String) (catalog : Catalog V)
      → from_documents toml services runtimes applications ≡ ok catalog
      → HoldsDocuments toml services runtimes applications catalog
  unfolding from_documents
  from_documents-HoldsDocuments toml services runtimes applications catalog h =
      let (s, first, h1) = >>=-eq-ok (load _ _ _ [] services) _ h in
      let (r, second, h2) = >>=-eq-ok (load _ _ _ [] runtimes) _ h1 in
      let (a, third, h3) = >>=-eq-ok (load _ _ _ [] applications) _ h2 in
      subst (HoldsDocuments toml services runtimes applications) (ok-injective h3) (
        load-Loaded _ _ _ [] s services first,
        load-Loaded _ _ _ [] r runtimes second,
        load-Loaded _ _ _ [] a applications third,
      )

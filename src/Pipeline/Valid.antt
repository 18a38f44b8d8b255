-- ===== src/Pipeline/Valid.antt =====
-- Which pipelines `Pipeline::validate` accepts.
use lumic.Prelude.{
  ◌≡◌, refl, ◌↔◌, true, false, not, ◌&&◌, List, [], ◌∷◌, String, arith, string_eq, All, Unseen,
  Unseen-iff, Distinct, contains, not-contains_iff, map, is_blank, is_empty, not-eq-false,
}
use lumic.Error.{ok, reject_if, >>=-eq-ok, reject_if-eq-ok}
use lumic.Json.{Json}
use lumic.Resource.{validate_resource_id, validate_ref}
use lumic.Pipeline.{
  Pipeline, PipelineStep, is_commit, ends_in_commit, validate_action, validate_steps,
  validate_pipeline,
}

-- the last step commits, and no other does
abbrev pub CommitsLast : {V : Type 0} → List (PipelineStep V) → Type 0
CommitsLast [] = ⊥
CommitsLast (s ∷ []) = is_commit s.action ≡ true
CommitsLast (s ∷ t ∷ steps) = (is_commit s.action ≡ false) × CommitsLast (t ∷ steps)

abbrev pub step_id : {V : Type 0} → PipelineStep V → String
step_id s = s.id

module _ {V : Type 0} ⦃json : Json V⦄ where
  pub record IsSound (s : PipelineStep V) : Type 0 where
    pub id : validate_resource_id "pipeline.step.id" s.id ≡ ok tt
    pub summary : is_blank s.summary ≡ false
    pub action : validate_action s.action ≡ ok tt

  pub record IsValid (p : Pipeline V) : Type 0 where
    pub id : validate_resource_id "pipeline.id" p.id ≡ ok tt
    pub target : validate_ref p.target ≡ ok tt
    pub summary : is_blank p.summary ≡ false
    pub steps : All IsSound p.steps
    pub ids : Distinct (map step_id p.steps)
    pub commits : CommitsLast p.steps

  -- no step but the last commits
  abbrev CommitsOnlyLast : List (PipelineStep V) → Type 0
  CommitsOnlyLast [] = Unit
  CommitsOnlyLast (s ∷ steps) =
      ((is_commit s.action && not (is_empty steps)) ≡ false) × CommitsOnlyLast steps

  CommitsLast-iff :
      (steps : List (PipelineStep V))
      → (CommitsOnlyLast steps × (ends_in_commit steps ≡ true)) ↔ CommitsLast steps
  CommitsLast-iff [] = (λ h. cc h.1, λ h. absurd h)
  CommitsLast-iff (s ∷ []) = (λ h. h.1, λ h. ((ground arith, tt), h))
  CommitsLast-iff (s ∷ t ∷ steps) =
      let (to, from) = CommitsLast-iff (t ∷ steps) in
      (
        λ h. (ground arith, to (h.0.1, h.1)),
        λ h. let (only, ends) = from h.1 in ((ground arith, only), ends),
      )

  abbrev Accepts : List String → List (PipelineStep V) → Type 0
  Accepts ids steps = All IsSound steps × Unseen ids (map step_id steps) × CommitsOnlyLast steps

  validate_steps-Accepts :
      (ids : List String) (steps : List (PipelineStep V))
      → validate_steps ids steps ≡ ok tt
      → Accepts ids steps
  unfolding validate_steps
  validate_steps-Accepts ids [] h = (tt, tt, tt)
  validate_steps-Accepts ids (s ∷ steps) h =
      let (_, id, h₁) = >>=-eq-ok (validate_resource_id "pipeline.step.id" s.id) _ h in
      let (_, fresh, h₂) = >>=-eq-ok (reject_if (contains ids s.id) _) _ h₁ in
      let (_, blank, h₃) = >>=-eq-ok (reject_if (is_blank s.summary) _) _ h₂ in
      let (_, action, h₄) = >>=-eq-ok (validate_action s.action) _ h₃ in
      let (_, commit, h₅) =
        >>=-eq-ok (reject_if (is_commit s.action && not (is_empty steps)) _) _ h₄ in
      let (sound, unseen, only) = validate_steps-Accepts (s.id ∷ ids) steps h₅ in
      (
        (record { id = id; summary = reject_if-eq-ok _ _ blank; action = action }, sound),
        ((not-contains_iff ids s.id).0 (reject_if-eq-ok _ _ fresh), unseen),
        (reject_if-eq-ok _ _ commit, only),
      )

  Accepts-validate_steps :
      (ids : List String) (steps : List (PipelineStep V))
      → Accepts ids steps
      → validate_steps ids steps ≡ ok tt
  unfolding validate_steps
  Accepts-validate_steps ids [] a = refl
  Accepts-validate_steps ids (s ∷ steps) ((here, sound), (fresh, unseen), (commit, only)) =
      rw (here.id) (
        rw ((not-contains_iff ids s.id).1 fresh) (
          rw (here.summary) (
            rw (here.action)
              (rw commit (Accepts-validate_steps (s.id ∷ ids) steps (sound, unseen, only))))))

  -- `Pipeline::validate` accepts exactly the pipelines whose id and target are valid, whose summary
  -- is not blank, whose steps each have a valid id, a summary that is not blank and a valid action,
  -- whose step ids are distinct, and whose last step, and no other, commits the state.
  pub validate_pipeline_iff : (p : Pipeline V) → (validate_pipeline p ≡ ok tt) ↔ IsValid p
  unfolding validate_pipeline
  validate_pipeline_iff p = (
    λ h.
        let (_, id, h₁) = >>=-eq-ok (validate_resource_id "pipeline.id" p.id) _ h in
        let (_, target, h₂) = >>=-eq-ok (validate_ref p.target) _ h₁ in
        let (_, blank, h₃) = >>=-eq-ok (reject_if (is_blank p.summary) _) _ h₂ in
        let (_, _, h₄) = >>=-eq-ok (reject_if (is_empty p.steps) _) _ h₃ in
        let (_, steps, h₅) = >>=-eq-ok (validate_steps [] p.steps) _ h₄ in
        let (sound, unseen, only) = validate_steps-Accepts [] p.steps steps in
        record {
          id = id;
          target = target;
          summary = reject_if-eq-ok _ _ blank;
          steps = sound;
          ids = (Unseen-iff _).0 unseen;
          commits = (CommitsLast-iff p.steps).0 (only, not-eq-false _ (reject_if-eq-ok _ _ h₅));
        },
    λ v.
        let (only, ends) = (CommitsLast-iff p.steps).1 v.commits in
        rw (v.id) (
          rw (v.target) (
            rw (v.summary) (
              rw (not_empty p.steps v.commits) (
                rw (Accepts-validate_steps [] p.steps (v.steps, (Unseen-iff _).1 v.ids, only))
                  (rw ends))))),
  )
    where
      not_empty : (steps : List (PipelineStep V)) → CommitsLast steps → is_empty steps ≡ false
      not_empty [] c = absurd c
      not_empty (_ ∷ _) c = refl

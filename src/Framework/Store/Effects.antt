-- ===== src/Framework/Store/Effects.antt =====
-- What a successful `bind` and `unbind` did to the file.
use lumic.Prelude.{
  ◌≡◌, refl, ap, inl, inr, Bool, true, false, not, none, some, [], ◌∷◌, ◌++◌, ◌==◌, string_eq, find,
  Bool-cases, Option-cases, not-eq-false,
}
use lumic.Error.{ok, reject_if, >>=-eq-ok, reject_if-eq-ok, ok-injective}
use lumic.Json.{Json}
use lumic.Resource.{ref_eq}
use lumic.Binding.{
  Binding, validate_binding, validate_graph, validate_from, reject_cycles, edges_from, any_cycle,
}
use lumic.Framework.{
  FrameworkState, initial, validate_state, check_services, check_resources, check_bindings,
  check_executions,
}
use lumic.Framework.Store.{
  StateFile, missing, link, corrupt, stored, Directory, BindingMutation, load_file, is_link, save,
  save_unless, lock_bindings, is_same_relationship, keep_existing, add_binding, bind,
}

pub is_initial_valid : (V : Type 0) ⦃json : Json V⦄ → validate_state (initial {V = V}) ≡ ok tt
unfolding validate_state check_services check_resources validate_graph validate_from reject_cycles
    edges_from any_cycle check_bindings check_executions
is_initial_valid V = refl

module _ {V : Type 0} ⦃json : Json V⦄ where
  pub load_file-valid :
      (f : StateFile V) (state : FrameworkState V)
      → load_file f ≡ ok state
      → validate_state state ≡ ok tt
  unfolding load_file
  load_file-valid missing state h = rw (← ok-injective h) (is_initial_valid V)
  load_file-valid link state h = absurd (cc)
  load_file-valid corrupt state h = absurd (cc)
  load_file-valid (stored s) state h =
      let (_, valid, same) = >>=-eq-ok (validate_state s) _ h in rw (← ok-injective same) valid

  pub load_file-stored :
      (state : FrameworkState V)
      → validate_state state ≡ ok tt
      → load_file (stored state) ≡ ok state
  unfolding load_file
  load_file-stored state h = rw h

  -- what a successful save needed, and what it left
  pub record Saved (d d' : Directory V) (state : FrameworkState V) : Type 0 where
    pub valid : validate_state state ≡ ok tt
    pub absolute : d.is_absolute ≡ true
    pub plain : is_link d.file ≡ false
    pub writable : d.is_writable ≡ true
    pub result : record d { file = stored state } ≡ d'

  pub save-Saved :
      (d d' : Directory V) (state : FrameworkState V) → save d state ≡ ok d' → Saved d d' state
  unfolding save
  save-Saved d d' state h =
      let (_, valid, h₁) = >>=-eq-ok (validate_state state) _ h in
      let (_, absolute, h₂) = >>=-eq-ok (reject_if (not d.is_absolute) _) _ h₁ in
      let (_, plain, h₃) = >>=-eq-ok (reject_if (is_link d.file) _) _ h₂ in
      let (_, writable, h₄) = >>=-eq-ok (reject_if (not d.is_writable) _) _ h₃ in
      record {
        valid = valid;
        absolute = not-eq-false _ (reject_if-eq-ok _ _ absolute);
        plain = reject_if-eq-ok _ _ plain;
        writable = not-eq-false _ (reject_if-eq-ok _ _ writable);
        result = ok-injective h₄;
      }

  pub save-ok :
      (d : Directory V) (state : FrameworkState V)
      → validate_state state ≡ ok tt
      → d.is_absolute ≡ true
      → is_link d.file ≡ false
      → d.is_writable ≡ true
      → save d state ≡ ok (record d { file = stored state })
  unfolding save
  save-ok d state v a p w = rw v (rw a (rw p (rw w)))

  abbrev pub extended : FrameworkState V → Binding → FrameworkState V
  extended state b = record state { bindings = state.bindings ++ b ∷ [] }

  -- the two ways in which `bind` succeeds
  pub data Bound (d d' : Directory V) (b : Binding) (dry_run : Bool) (m : BindingMutation)
      (state : FrameworkState V) : Type 0 where
    kept :
        (existing : Binding)
        → find (λ item. item.id == b.id) state.bindings ≡ some existing
        → is_same_relationship existing b ≡ true
        → record { binding = existing; changed = false; dry_run = dry_run } ≡ m
        → d ≡ d'
        → Bound d d' b dry_run m state
    added :
        find (λ item. item.id == b.id) state.bindings ≡ none
        → validate_state (extended state b) ≡ ok tt
        → save_unless dry_run d (extended state b) ≡ ok d'
        → record { binding = b; changed = true; dry_run = dry_run } ≡ m
        → Bound d d' b dry_run m state

  pub record Succeeded (d d' : Directory V) (b : Binding) (dry_run : Bool) (m : BindingMutation)
      : Type 0 where
    pub state : FrameworkState V
    pub sound : validate_binding b ≡ ok tt
    pub locked : lock_bindings d ≡ ok tt
    pub loaded : load_file d.file ≡ ok state
    pub how : Bound d d' b dry_run m state

  pub keep_existing-Bound :
      (d d' : Directory V) (b existing : Binding) (dry_run : Bool) (m : BindingMutation)
      (state : FrameworkState V)
      → find (λ item. item.id == b.id) state.bindings ≡ some existing
      → keep_existing d b dry_run existing ≡ ok (m, d')
      → Bound d d' b dry_run m state
  keep_existing-Bound d d' b existing dry_run m state found h =
      elim (Bool-cases (is_same_relationship existing b)) [
        | inl same ↦
            let e = ok-injective (rw same at h) in
            kept existing found same (ap (λ p. p.0) e) (ap (λ p. p.1) e)
        | inr other ↦ absurd (cc (rw other at h))
      ]

  pub add_binding-Bound :
      (d d' : Directory V) (b : Binding) (dry_run : Bool) (m : BindingMutation)
      (state : FrameworkState V)
      → find (λ item. item.id == b.id) state.bindings ≡ none
      → add_binding d state b dry_run ≡ ok (m, d')
      → Bound d d' b dry_run m state
  unfolding add_binding
  add_binding-Bound d d' b dry_run m state fresh h =
      let (_, valid, h₁) = >>=-eq-ok (validate_state (extended state b)) _ h in
      let (saved, wrote, h₂) = >>=-eq-ok (save_unless dry_run d (extended state b)) _ h₁ in
      let e = ok-injective h₂ in added fresh valid (rw (← ap (λ p. p.1) e) wrote) (ap (λ p. p.0) e)

  pub bind-Succeeded :
      (d d' : Directory V) (b : Binding) (dry_run : Bool) (m : BindingMutation)
      → bind d b dry_run ≡ ok (m, d')
      → Succeeded d d' b dry_run m
  unfolding bind
  bind-Succeeded d d' b dry_run m h =
      let (_, sound, h₁) = >>=-eq-ok (validate_binding b) _ h in
      let (_, locked, h₂) = >>=-eq-ok (lock_bindings d) _ h₁ in
      let (state, loaded, h₃) = >>=-eq-ok (load_file d.file) _ h₂ in
      record {
        state = state;
        sound = sound;
        locked = locked;
        loaded = loaded;
        how = elim (Option-cases (find (λ item. item.id == b.id) state.bindings)) [
          | inl fresh ↦ add_binding-Bound d d' b dry_run m state fresh (rw fresh at h₃)
          | inr (existing, found) ↦
              keep_existing-Bound d d' b existing dry_run m state found (rw found at h₃)
        ];
      }

  pub bind-kept :
      (d : Directory V) (b existing : Binding) (dry_run : Bool) (state : FrameworkState V)
      → validate_binding b ≡ ok tt
      → lock_bindings d ≡ ok tt
      → load_file d.file ≡ ok state
      → find (λ item. item.id == b.id) state.bindings ≡ some existing
      → is_same_relationship existing b ≡ true
      → bind d b dry_run ≡ ok (record { binding = existing; changed = false; dry_run = dry_run }, d)
  unfolding bind
  bind-kept d b existing dry_run state sound locked loaded found same =
      rw sound (rw locked (rw loaded (rw found (rw same))))

  pub bind-added :
      (d d' : Directory V) (b : Binding) (dry_run : Bool) (state : FrameworkState V)
      → validate_binding b ≡ ok tt
      → lock_bindings d ≡ ok tt
      → load_file d.file ≡ ok state
      → find (λ item. item.id == b.id) state.bindings ≡ none
      → validate_state (extended state b) ≡ ok tt
      → save_unless dry_run d (extended state b) ≡ ok d'
      → bind d b dry_run ≡ ok (record { binding = b; changed = true; dry_run = dry_run }, d')
  unfolding bind add_binding
  bind-added d d' b dry_run state sound locked loaded fresh valid wrote =
      rw sound (rw locked (rw loaded (rw fresh (rw valid (rw wrote)))))

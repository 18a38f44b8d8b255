-- ===== src/Framework/Store/Binds.antt =====
-- What a call of `bind` leaves behind, and what a dry run of it foretells.
use lumic.Prelude.{
  find-append, ◌≡◌, refl, ap, ◌∙◌, subst, true, false, some, [], ◌∷◌, ◌++◌, ◌==◌, string_eq, find,
  ==_refl,
}
use lumic.Error.{ok}
use lumic.Json.{Json}
use lumic.Resource.{ref_eq}
use lumic.Binding.{Binding, validate_binding}
use lumic.Framework.{FrameworkState}
use lumic.Framework.Valid.{IsValid, validate_state_iff}
use lumic.Framework.Store.{
  stored, Directory, BindingMutation, load_file, save_unless, lock_bindings, is_same_relationship,
  bind,
}
use lumic.Framework.Store.Effects.{
  load_file-valid, load_file-stored, save-Saved, extended, Bound, kept, added, bind-Succeeded,
  bind-kept,
}

-- a binding has its own relationship
same_refl : (b : Binding) → is_same_relationship b b ≡ true
same_refl b =
    rw (==_refl b.producer) (rw (==_refl b.output) (rw (==_refl b.consumer) (rw (==_refl b.input))))

module _ {V : Type 0} ⦃json : Json V⦄ where
  -- After a call of `bind` that recorded its binding, the same call succeeds again, changes
  -- nothing, and says so.
  pub bind_idempotent :
      (d d' : Directory V) (b : Binding) (m : BindingMutation)
      → bind d b false ≡ ok (m, d')
      → m.changed ≡ true
      → bind d' b false ≡ ok (record { binding = b; changed = false; dry_run = false }, d')
  unfolding save_unless lock_bindings
  bind_idempotent d d' b m h changed =
      let s = bind-Succeeded d d' b false m h in again s.state s.sound s.locked s.how
    where
      again :
          (st : FrameworkState V)
          → validate_binding b ≡ ok tt
          → lock_bindings d ≡ ok tt
          → Bound d d' b false m st
          → bind d' b false ≡ ok (record { binding = b; changed = false; dry_run = false }, d')
      again st sound locked (kept existing found rel mutation left) =
          absurd (cc (ap (λ (x : BindingMutation). x.changed) mutation, changed))
      again st sound locked (added fresh valid wrote mutation) =
          let saved = save-Saved d d' (extended st b) wrote in
          let here : find (λ item. item.id == b.id) (st.bindings ++ b ∷ []) ≡ some b =
            find-append (λ item. item.id == b.id) st.bindings (b ∷ []) fresh
            ∙ rw (==_refl b.id) refl in
          subst
            (λ x. bind x b false ≡ ok (record { binding = b; changed = false; dry_run = false }, x))
            saved.result
            (bind-kept (record d { file = stored (extended st b) }) b b false (extended st b) sound
              locked (load_file-stored (extended st b) saved.valid) here (same_refl b))

  -- After a call of `bind` that succeeds and is no dry run, the file is loaded again without an
  -- error, and the state in it is valid, its bindings without a cycle among them.
  pub bind-IsValid :
      (d d' : Directory V) (b : Binding) (m : BindingMutation)
      → bind d b false ≡ ok (m, d')
      → (state : FrameworkState V) × (load_file d'.file ≡ ok state) × IsValid state
  unfolding save_unless
  bind-IsValid d d' b m h = let s = bind-Succeeded d d' b false m h in after s.state s.loaded s.how
    where
      after :
          (st : FrameworkState V)
          → load_file d.file ≡ ok st
          → Bound d d' b false m st
          → (state : FrameworkState V) × (load_file d'.file ≡ ok state) × IsValid state
      after st loaded (kept existing found rel mutation left) = (
        st,
        subst (λ (x : Directory V). load_file x.file ≡ ok st) left loaded,
        (validate_state_iff st).0 (load_file-valid d.file st loaded),
      )
      after st loaded (added fresh valid wrote mutation) =
          let saved = save-Saved d d' (extended st b) wrote in
          (
            extended st b,
            subst (λ (x : Directory V). load_file x.file ≡ ok (extended st b)) saved.result
                (load_file-stored (extended st b) valid),
            (validate_state_iff (extended st b)).0 valid,
          )

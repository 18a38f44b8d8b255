-- ===== src/Framework/Store/Laws.antt =====
-- Binding and unbinding as laws of the stored state.
use lumic.Prelude.{
  keep-append, String, ◌≡◌, refl, sym, ap, ◌∙◌, subst, inl, inr, Bool, true, false, not, none, List,
  [], ◌∷◌, ◌++◌, nat_beq, ◌==◌, string_eq, find, keep, length, length-append, if◌then◌else◌,
  Bool-cases, arith, All-imp, ==_refl,
}
use mathlib.Core.List.{append-nil}
use lumic.Error.{ok, ok-injective}
use lumic.Json.{Json}
use lumic.Resource.{ref_eq}
use lumic.Binding.{Binding}
use lumic.Binding.Valid.{keep-IsValid, All-keep}
use lumic.Framework.{FrameworkState, validate_state}
use lumic.Framework.Valid.{IsBound, validate_state_iff}
use lumic.Framework.Store.{
  stored, Directory, BindingMutation, load_file, is_link, save_unless, lock_bindings, bind, unbind,
}
use lumic.Framework.Store.Effects.{
  load_file-valid, load_file-stored, Saved, save-Saved, save-ok, extended, Bound, kept, added,
  bind-Succeeded,
}

keep_of_fresh :
    (k : String) (xs : List Binding)
    → find (λ item. item.id == k) xs ≡ none
    → keep (λ b. not (b.id == k)) xs ≡ xs
keep_of_fresh k [] h = refl
keep_of_fresh k (x ∷ xs) h = ground (arith, keep_of_fresh k xs)

append_longer :
    (xs : List Binding) (b : Binding) → nat_beq (length (xs ++ b ∷ [])) (length xs) ≡ false
append_longer xs b = ground (arith, length-append xs (b ∷ []))

module _ {V : Type 0} ⦃json : Json V⦄ where
  abbrev pub without : FrameworkState V → String → FrameworkState V
  without state k = record state { bindings = keep (λ b. not (b.id == k)) state.bindings }

  -- without the bindings of an id an accepted state is accepted
  without-valid :
      (state : FrameworkState V) (k : String)
      → validate_state state ≡ ok tt
      → validate_state (without state k) ≡ ok tt
  without-valid state k h =
      let v = (validate_state_iff state).0 h in
      (validate_state_iff (without state k)).1 (record {
        version = v.version;
        services = v.services;
        resources = v.resources;
        service_names = v.service_names;
        resource_names = v.resource_names;
        apart = v.apart;
        bindings = keep-IsValid (λ b. not (b.id == k)) state.bindings v.bindings;
        bound =
            All-keep (λ b. not (b.id == k)) (IsBound (without state k)) state.bindings
              (All-imp (IsBound state) (IsBound (without state k))
                (λ b i. record { producer = i.producer; consumer = i.consumer; output = i.output })
                state.bindings v.bound);
        executions = v.executions;
      })

  abbrev pub removes : FrameworkState V → String → Bool
  removes state k =
      not (nat_beq (length state.bindings) (length (keep (λ b. not (b.id == k)) state.bindings)))

  -- Unbinding is never refused for the state that it would leave: where the file of an absolute
  -- state directory is no link, loads and can be written, and the lock on bindings is free,
  -- `unbind` succeeds; the file then holds the state without the bindings of that id, or is
  -- untouched where there are none; and the state without them is accepted.
  pub unbind_total :
      (d : Directory V) (state : FrameworkState V) (k : String)
      → load_file d.file ≡ ok state
      → lock_bindings d ≡ ok tt
      → d.is_absolute ≡ true
      → is_link d.file ≡ false
      → d.is_writable ≡ true
      → (unbind d k false
          ≡ ok (
            record { binding_id = k; changed = removes state k; dry_run = false },
            if removes state k then record d { file = stored (without state k) } else d,
          ))
        × (validate_state (without state k) ≡ ok tt)
  unfolding unbind save_unless
  unbind_total d state k loaded free absolute plain writable =
      let rest = without-valid state k (load_file-valid d.file state loaded) in
      (
        rw free (
            rw loaded (elim (Bool-cases (removes state k)) [
              | inl some_go ↦
                  rw some_go (rw (save-ok d (without state k) rest absolute plain writable))
              | inr none_go ↦ rw none_go
            ])),
        rest,
      )

  -- a state that lacks the id, with a binding of that id added and taken away
  without-extended :
      (state : FrameworkState V) (b : Binding)
      → find (λ item. item.id == b.id) state.bindings ≡ none
      → keep (λ x. not (x.id == b.id)) (state.bindings ++ b ∷ []) ≡ state.bindings
  without-extended state b fresh =
      rw (keep-append (λ x. not (x.id == b.id)) state.bindings (b ∷ [])) (
        rw (keep_of_fresh b.id state.bindings fresh)
          (rw (==_refl b.id) (append-nil state.bindings)))

  undo-added :
      (d : Directory V) (state : FrameworkState V) (b : Binding)
      → find (λ item. item.id == b.id) state.bindings ≡ none
      → lock_bindings d ≡ ok tt
      → (d' : Directory V) → Saved d d' (extended state b)
      → unbind d' b.id false
        ≡ ok (
          record { binding_id = b.id; changed = true; dry_run = false },
          record d { file = stored state },
        )
  unfolding lock_bindings
  undo-added d state b fresh locked d' saved =
      let bigger = extended state b in
      let put : Directory V = record d { file = stored bigger } in
      let (done, _) =
        unbind_total put bigger b.id (load_file-stored bigger saved.valid) locked saved.absolute
          refl saved.writable in
      let back = without-extended state b fresh in
      let going : removes bigger b.id ≡ true = rw back (rw (append_longer state.bindings b)) in
      let restored : without bigger b.id ≡ state = ap (λ bs. record state { bindings = bs }) back in
      rw (← saved.result) (rw (going, restored) at done)

  -- Where the state was loaded and `bind` recorded a new binding in it, unbinding the id of that
  -- binding succeeds, says that it changed the state, and leaves the state that was loaded before
  -- in the file.
  pub bind-unbind :
      (d d' : Directory V) (b : Binding) (m : BindingMutation) (state : FrameworkState V)
      → load_file d.file ≡ ok state
      → bind d b false ≡ ok (m, d')
      → m.changed ≡ true
      → unbind d' b.id false
        ≡ ok (
          record { binding_id = b.id; changed = true; dry_run = false },
          record d { file = stored state },
        )
  unfolding save_unless
  bind-unbind d d' b m state loaded h changed =
      let s = bind-Succeeded d d' b false m h in
      let same : s.state ≡ state = ok-injective (sym s.loaded ∙ loaded) in
      subst
        (λ st.
          unbind d' b.id false
          ≡ ok (
            record { binding_id = b.id; changed = true; dry_run = false },
            record d { file = stored st },
          ))
        same (undo s.state s.locked s.how)
    where
      undo :
          (st : FrameworkState V)
          → lock_bindings d ≡ ok tt
          → Bound d d' b false m st
          → unbind d' b.id false
            ≡ ok (
              record { binding_id = b.id; changed = true; dry_run = false },
              record d { file = stored st },
            )
      undo st locked (kept existing found rel mutation left) =
          absurd (cc (ap (λ (x : BindingMutation). x.changed) mutation, changed))
      undo st locked (added fresh valid wrote mutation) =
          undo-added d st b fresh locked d' (save-Saved d d' (extended st b) wrote)

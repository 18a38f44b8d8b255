-- ===== src/Lifecycle/Laws.antt =====
-- What a removal touches.
use lumic.Prelude.{
  String, ◌≡◌, refl, Bool, true, false, ◌&&◌, List, [], ◌∷◌, ◌++◌, map, All, contains, ◌==◌,
  string_eq, if◌then◌else◌,
}
use mathlib.Core.List.{reverse}
use lumic.Json.{Json}
use lumic.Application.{ApplicationServiceReference, ApplicationProcess, ApplicationProcessKind}
use lumic.Pipeline.{PipelineStep, PipelineAction, provider_action}
use lumic.Lifecycle.{GenericPhpApplicationSpec}
use lumic.Lifecycle.Steps.{
  removal_steps, provider_step, process_removal, process_removal_step, unbind_step,
}

abbrev pub removal_operations : List String
removal_operations =
    "tls_detach" ∷ "process_remove" ∷ "schedule_remove" ∷ "database_unbind" ∷ "web_host_remove"
    ∷ "root_trash" ∷ []

-- the action undoes a binding that the application owns
abbrev pub is_own_removal : {V : Type 0} → PipelineAction V → Bool
is_own_removal (provider_action name operation _) =
    (name == "generic_php_application") && contains removal_operations operation
is_own_removal _ = false

All-++ :
    {S : Type 0} (Holds_at : S → Type 0) (front back : List S)
    → All Holds_at front
    → All Holds_at back
    → All Holds_at (front ++ back)
All-++ Holds_at [] back a b = b
All-++ Holds_at (s ∷ front) back (h, a) b = (h, All-++ Holds_at front back a b)

All-map :
    {A B : Type 0} (P : B → Type 0) (f : A → B)
    → ((x : A) → P (f x))
    → (xs : List A) → All P (map f xs)
All-map P f h [] = tt
All-map P f h (x ∷ xs) = (h x, All-map P f h xs)

abbrev pub IsOwn : (V : Type 0) → PipelineStep V → Type 0
IsOwn V s = is_own_removal s.action ≡ true

removal_of_kind :
    (k : ApplicationProcessKind) → contains removal_operations (process_removal k) ≡ true
removal_of_kind ApplicationProcessKind.worker = refl
removal_of_kind ApplicationProcessKind.schedule = refl

module _ (V : Type 0) ⦃json : Json V⦄ where
  process_removal-IsOwn : (p : ApplicationProcess) → IsOwn V (process_removal_step p)
  unfolding process_removal_step provider_step
  process_removal-IsOwn p = removal_of_kind p.kind

  unbind-IsOwn : (d : ApplicationServiceReference) → IsOwn V (unbind_step d)
  unfolding unbind_step provider_step
  unbind-IsOwn d = refl

  detach-IsOwn :
      (tls : Bool)
      → All (IsOwn V) (
          if tls
          then provider_step "tls-detach" "Detach the owned certificate" "tls_detach" [] ∷ []
          else [])
  unfolding provider_step
  detach-IsOwn true = (refl, tt)
  detach-IsOwn false = tt

  -- Every step of a removal is an action of the provider of PHP applications that detaches the
  -- certificate, removes a process or a schedule, unbinds a database, removes the web host or moves
  -- the root to the trash: no package, runtime, component or service is touched.
  pub removal_steps-IsOwn : (spec : GenericPhpApplicationSpec) → All (IsOwn V) (removal_steps spec)
  unfolding removal_steps provider_step
  removal_steps-IsOwn spec = All-++ (IsOwn V) _ _ (detach-IsOwn spec.tls) (
      All-++ (IsOwn V) _ _
        (All-map (IsOwn V) process_removal_step process_removal-IsOwn (reverse spec.processes))
        (All-++ (IsOwn V) _ _ (All-map (IsOwn V) unbind_step unbind-IsOwn (reverse spec.databases))
          (refl, (refl, tt))))

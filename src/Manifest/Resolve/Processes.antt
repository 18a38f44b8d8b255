-- ===== src/Manifest/Resolve/Processes.antt =====
-- What a manifest resolves to: the processes and the hand-off between two ports.
use lumic.Prelude.{
  ℕ, zero, suc, ◌+◌, ◌≤◌, ◌≡◌, refl, ap, sym, ◌∙◌, subst, String, Option, none, some, List, [], ◌∷◌,
  ◌++◌, length, length-append, leb, leb-eq-true, All, Bool-cases, inl, inr, arith,
}
use lumic.Error.{Result, Check, ok, each, traverse, >>=-eq-ok, ok-injective}
use lumic.Resource.{Entries}
use lumic.Application.{ApplicationProcess, NodeHandoff, validate_process}
use lumic.Manifest.{ManifestWorker, ManifestCron, ManifestWeb}
use lumic.Manifest.Resolve.{
  ApplicationRuntime, static_site, php, node, checked_next, handoff_on, node_web, other_web,
  node_handoff_of, instances_from, worker_processes, cron_process, processes_of,
}

abbrev pub IsHandoff : ApplicationRuntime → NodeHandoff → Type 0
IsHandoff runtime h =
    (runtime ≡ node) × (h.secondary_port ≡ h.primary_port + 1) × (h.secondary_port ≤ 65535)

some-injective : {A : Type 0} {a b : A} → some a ≡ some b → a ≡ b
some-injective h = cc

checked_next_lem :
    (port secondary : ℕ)
    → checked_next port ≡ some secondary
    → (secondary ≡ port + 1) × (secondary ≤ 65535)
checked_next_lem port secondary h = elim (Bool-cases (leb (port + 1) 65535)) [
  | inl e ↦
      let h' = rw e at h in
      let same : port + 1 ≡ secondary = cc in
      let most = (leb-eq-true (port + 1) 65535).0 e in (sym same, subst (λ n. n ≤ 65535) same most)
  | inr e ↦ let h' = rw e at h in cc
]

handoff_on_lem :
    (command : List String) (port drain : ℕ) (next : Option ℕ) (h : NodeHandoff)
    → checked_next port ≡ next
    → handoff_on command port drain next ≡ ok (some h)
    → IsHandoff node h
handoff_on_lem command port drain none h is e = cc
handoff_on_lem command port drain (some secondary) h is e =
    subst (IsHandoff node) (some-injective (ok-injective e))
      (let (next, most) = checked_next_lem port secondary is in (refl, next, most))

node_web_lem :
    (drain : ℕ) (command : Option (List String)) (port : Option ℕ) (h : NodeHandoff)
    → node_web drain command port ≡ ok (some h)
    → IsHandoff node h
node_web_lem drain (some command) (some port) h e =
    handoff_on_lem command port drain (checked_next port) h refl e
node_web_lem drain none none h e = cc
node_web_lem drain (some command) none h e = cc
node_web_lem drain none (some port) h e = cc

other_web_lem :
    (command : Option (List String)) (port : Option ℕ) (o : Option NodeHandoff)
    → other_web command port ≡ ok o
    → o ≡ none
other_web_lem none none o e = cc
other_web_lem (some command) none o e = cc
other_web_lem (some command) (some port) o e = cc
other_web_lem none (some port) o e = cc

node_handoff_of-IsHandoff :
    (runtime : ApplicationRuntime) (drain : ℕ) (web : Option ManifestWeb) (h : NodeHandoff)
    → node_handoff_of runtime drain web ≡ ok (some h)
    → IsHandoff runtime h
unfolding node_handoff_of
node_handoff_of-IsHandoff runtime drain none h e = cc
node_handoff_of-IsHandoff node drain (some web) h e = node_web_lem drain web.command web.port h e
node_handoff_of-IsHandoff static_site drain (some web) h e =
    absurd (cc (other_web_lem web.command web.port (some h) e))
node_handoff_of-IsHandoff php drain (some web) h e =
    absurd (cc (other_web_lem web.command web.port (some h) e))

abbrev pub HandsOff : ApplicationRuntime → Option NodeHandoff → Type 0
HandsOff runtime none = Unit
HandsOff runtime (some h) = IsHandoff runtime h

pub node_handoff_of-HandsOff :
    (runtime : ApplicationRuntime) (drain : ℕ) (web : Option ManifestWeb) (o : Option NodeHandoff)
    → node_handoff_of runtime drain web ≡ ok o
    → HandsOff runtime o
node_handoff_of-HandsOff runtime drain web none e = tt
node_handoff_of-HandsOff runtime drain web (some h) e =
    node_handoff_of-IsHandoff runtime drain web h e

-- the instances that the workers ask for
abbrev pub instance_count : Entries ManifestWorker → ℕ
instance_count [] = 0
instance_count (entry ∷ workers) = entry.1.instances + instance_count workers

length-instances_from :
    (w : ManifestWorker) (name : String) (instance_number left : ℕ)
    → length (instances_from w name instance_number left) ≡ left
unfolding instances_from
length-instances_from w name instance_number zero = refl
length-instances_from w name instance_number (suc left) =
    ap suc (length-instances_from w name (instance_number + 1) left)

length-worker_processes :
    (workers : Entries ManifestWorker) → length (worker_processes workers) ≡ instance_count workers
unfolding worker_processes
length-worker_processes [] = refl
length-worker_processes ((name, w) ∷ workers) =
    let here = length-instances_from w name 1 w.instances in
    let rest = length-worker_processes workers in
    let both = length-append (instances_from w name 1 w.instances) (worker_processes workers) in
    omega arith

length-traverse :
    {A B : Type 0} (f : A → Result B) (xs : List A) (ys : List B)
    → traverse f xs ≡ ok ys
    → length ys ≡ length xs
length-traverse f [] ys h = ap length (sym (ok-injective h))
length-traverse f (x ∷ xs) ys h =
    let (y, _, h1) = >>=-eq-ok (f x) _ h in
    let (rest, more, h2) = >>=-eq-ok (traverse f xs) _ h1 in
    ap length (sym (ok-injective h2)) ∙ ap suc (length-traverse f xs rest more)

each-All :
    {A : Type 0} (f : A → Check) (xs : List A) → each f xs ≡ ok tt → All (λ x. f x ≡ ok tt) xs
each-All f [] h = tt
each-All f (x ∷ xs) h = let (_, here, h') = >>=-eq-ok (f x) _ h in (here, each-All f xs h')

pub processes_of_lem :
    (workers : Entries ManifestWorker) (cron : Entries ManifestCron)
    (processes : List ApplicationProcess)
    → processes_of workers cron ≡ ok processes
    → (length processes ≡ instance_count workers + length cron)
      × All (λ p. validate_process p ≡ ok tt) processes
unfolding processes_of
processes_of_lem workers cron processes h =
    let (scheduled, made, h1) = >>=-eq-ok (traverse cron_process cron) _ h in
    let (_, valid, h2) =
      >>=-eq-ok (each validate_process (worker_processes workers ++ scheduled)) _ h1 in
    let same = ok-injective h2 in
    let total = length-append (worker_processes workers) scheduled in
    let first = length-worker_processes workers in
    let second = length-traverse cron_process cron scheduled made in
    let counted : length (worker_processes workers ++ scheduled)
        ≡ instance_count workers + length cron =
      omega arith in
    (
      ap length (sym same) ∙ counted,
      subst (All (λ p. validate_process p ≡ ok tt)) same
          (each-All validate_process (worker_processes workers ++ scheduled) valid),
    )

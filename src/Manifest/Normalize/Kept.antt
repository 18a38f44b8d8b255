-- ===== src/Manifest/Normalize/Kept.antt =====
-- What `normalize` keeps of the document.
use lumic.Prelude.{
  ◌≡◌, refl, ap, sym, ◌∙◌, subst, String, false, Option, none, some, List, [], ◌∷◌, map, is_some,
  In, All, Distinct, Bool-cases, inl, inr, ◌==◌, string_eq, eq_iff, ==_refl, not, ◌||◌, nat_beq,
}
use lumic.Error.{Result, ok, err, ◌>>=◌, reject_if, >>=-eq-ok, ok-injective, reject_if-eq-ok}
use lumic.Resource.{Entries}
use lumic.Configuration.{get, insert}
use lumic.Configuration.Lookup.{get-insert, insert-kept}
use lumic.Application.{ProcessRestartPolicy}
use lumic.Manifest.{
  ManifestWeb, ManifestWorker, ManifestCron, ApplicationManifest, manifest_schema_version,
}
use lumic.Manifest.Normalize.{
  ManifestProcessV2, ManifestProcessTypeV2, web, worker, ManifestScheduleV2, ApplicationManifestV2,
  Sorted, web_of, worker_of, cron_of, add_process, sort_processes, gather_schedules,
  normalize_runtime, normalize,
}

-- a process of the document is the web process of the manifest with its command and its port, or a
-- worker under its name with all that it has but its type
abbrev pub IsKeptAs :
    Option ManifestWeb
    → Entries ManifestWorker
    → String
    → ManifestProcessV2
    → ManifestProcessTypeV2
    → Type 0
IsKeptAs site workers name process web =
    site ≡ some (record { command = some process.command; port = process.port })
IsKeptAs site workers name process worker =
    get name workers
    ≡ some (record {
      command = process.command;
      instances = process.instances;
      environment = process.environment;
      working_directory = process.working_directory;
      restart = process.restart;
      health = process.health;
    })

abbrev pub IsKept :
    Option ManifestWeb → Entries ManifestWorker → String × ManifestProcessV2 → Type 0
IsKept site workers entry = IsKeptAs site workers entry.0 entry.1 entry.1.process_type

abbrev names_of : Entries ManifestProcessV2 → List String
names_of processes = map (λ entry. entry.0) processes

apart : (name k : String) (names : List String) → ¬ (In k (name ∷ names)) → (name == k) ≡ false
apart name k names away = elim (Bool-cases (name == k)) [
  | inl e ↦ absurd (away (inl (sym ((eq_iff name k).0 e))))
  | inr e ↦ e
]

add_process-workers :
    (sorted next : Sorted) (name k : String) (process : ManifestProcessV2)
    (how : ManifestProcessTypeV2)
    → (name == k) ≡ false
    → add_process sorted name process how ≡ ok next
    → get k next.workers ≡ get k sorted.workers
add_process-workers sorted next name k process web other h =
    let (_, _, h') =
      >>=-eq-ok (reject_if (is_some sorted.web || not (nat_beq process.instances 1)) _) _ h in
    sym (ap (λ s. get k s.workers) (ok-injective h'))
add_process-workers sorted next name k process worker other h =
    let (_, _, h') = >>=-eq-ok (reject_if (is_some process.port) _) _ h in
    sym (ap (λ s. get k s.workers) (ok-injective h'))
    ∙ get-insert k name (worker_of process) sorted.workers
    ∙ rw other refl

add_process-web :
    (sorted next : Sorted) (name : String) (process : ManifestProcessV2)
    (how : ManifestProcessTypeV2) (site : ManifestWeb)
    → sorted.web ≡ some site
    → add_process sorted name process how ≡ ok next
    → next.web ≡ some site
add_process-web sorted next name process web site is h = let h' = rw is at h in absurd cc
add_process-web sorted next name process worker site is h =
    let (_, _, h') = >>=-eq-ok (reject_if (is_some process.port) _) _ h in
    sym (ap (λ s. s.web) (ok-injective h')) ∙ is

sort_processes-workers :
    (sorted out : Sorted) (processes : Entries ManifestProcessV2) (k : String)
    → ¬ (In k (names_of processes))
    → sort_processes sorted processes ≡ ok out
    → get k out.workers ≡ get k sorted.workers
unfolding sort_processes
sort_processes-workers sorted out [] k away h = sym (ap (λ s. get k s.workers) (ok-injective h))
sort_processes-workers sorted out ((name, process) ∷ processes) k away h =
    let (next, step, h') = >>=-eq-ok (add_process sorted name process process.process_type) _ h in
    sort_processes-workers next out processes k (λ i. away (inr i)) h'
    ∙ add_process-workers sorted next name k process process.process_type
        (apart name k (names_of processes) away) step

sort_processes-web :
    (sorted out : Sorted) (processes : Entries ManifestProcessV2) (site : ManifestWeb)
    → sorted.web ≡ some site
    → sort_processes sorted processes ≡ ok out
    → out.web ≡ some site
unfolding sort_processes
sort_processes-web sorted out [] site is h = sym (ap (λ s. s.web) (ok-injective h)) ∙ is
sort_processes-web sorted out ((name, process) ∷ processes) site is h =
    let (next, step, h') = >>=-eq-ok (add_process sorted name process process.process_type) _ h in
    sort_processes-web next out processes site
      (add_process-web sorted next name process process.process_type site is step) h'

kept_first :
    (sorted next out : Sorted) (name : String) (process : ManifestProcessV2)
    (how : ManifestProcessTypeV2) (processes : Entries ManifestProcessV2)
    → ¬ (In name (names_of processes))
    → add_process sorted name process how ≡ ok next
    → sort_processes next processes ≡ ok out
    → IsKeptAs out.web out.workers name process how
kept_first sorted next out name process web processes fresh step h =
    let (_, _, made) =
      >>=-eq-ok (reject_if (is_some sorted.web || not (nat_beq process.instances 1)) _) _ step in
    sort_processes-web next out processes (web_of process)
      (sym (ap (λ s. s.web) (ok-injective made))) h
kept_first sorted next out name process worker processes fresh step h =
    let (_, _, made) = >>=-eq-ok (reject_if (is_some process.port) _) _ step in
    sort_processes-workers next out processes name fresh h
    ∙ sym (ap (λ s. get name s.workers) (ok-injective made))
    ∙ get-insert name name (worker_of process) sorted.workers
    ∙ rw (==_refl name) refl

sort_processes-IsKept :
    (sorted out : Sorted) (processes : Entries ManifestProcessV2)
    → Distinct (names_of processes)
    → sort_processes sorted processes ≡ ok out
    → All (IsKept out.web out.workers) processes
unfolding sort_processes
sort_processes-IsKept sorted out [] distinct h = tt
sort_processes-IsKept sorted out ((name, process) ∷ processes) (fresh, distinct) h =
    let (next, step, h') = >>=-eq-ok (add_process sorted name process process.process_type) _ h in
    (
      kept_first sorted next out name process process.process_type processes fresh step h',
      sort_processes-IsKept next out processes distinct h',
    )

none_of : {A : Type 0} (o : Option A) → is_some o ≡ false → o ≡ none
none_of none h = refl
none_of (some d) h = cc

abbrev pub IsScheduled : Entries ManifestCron → ManifestScheduleV2 → Type 0
IsScheduled cron schedule =
    get schedule.name cron
    ≡ some (record { command = schedule.command; schedule = schedule.schedule })

-- without what a web process may say of its environment, directory, restart policy and health
abbrev pub bare_as :
    ProcessRestartPolicy → ManifestProcessV2 → ManifestProcessTypeV2 → ManifestProcessV2
bare_as policy process web = record process {
  environment = [];
  working_directory = none;
  restart = policy;
  health = none;
}
bare_as policy process worker = process

abbrev pub bare : ProcessRestartPolicy → String × ManifestProcessV2 → String × ManifestProcessV2
bare policy entry = (entry.0, bare_as policy entry.1 entry.1.process_type)

add_process-bare :
    (policy : ProcessRestartPolicy) (sorted : Sorted) (name : String) (process : ManifestProcessV2)
    (how : ManifestProcessTypeV2)
    → process.process_type ≡ how
    → add_process sorted name (bare_as policy process how) (bare_as policy process how).process_type
      ≡ add_process sorted name process how
add_process-bare policy sorted name process web typed = rw typed refl
add_process-bare policy sorted name process worker typed = rw typed refl

>>=-same :
    {A B : Type 0} {f g : A → Result B} (first : Result A)
    → ((a : A) → f a ≡ g a)
    → (first >>= f) ≡ (first >>= g)
>>=-same (err e) same = refl
>>=-same (ok a) same = same a

sort_processes-bare :
    (policy : ProcessRestartPolicy) (sorted : Sorted) (processes : Entries ManifestProcessV2)
    → sort_processes sorted (map (bare policy) processes) ≡ sort_processes sorted processes
unfolding sort_processes
sort_processes-bare policy sorted [] = refl
sort_processes-bare policy sorted ((name, process) ∷ processes) =
    ap (λ first. first >>= λ next. sort_processes next (map (bare policy) processes))
      (add_process-bare policy sorted name process process.process_type refl)
    ∙ >>=-same (add_process sorted name process process.process_type)
        (λ next. sort_processes-bare policy next processes)

gather_schedules-keeps :
    (cron out : Entries ManifestCron) (schedules : List ManifestScheduleV2) (k : String)
    (job : ManifestCron)
    → get k cron ≡ some job
    → gather_schedules cron schedules ≡ ok out
    → get k out ≡ some job
unfolding gather_schedules
gather_schedules-keeps cron out [] k job is h = sym (ap (get k) (ok-injective h)) ∙ is
gather_schedules-keeps cron out (s ∷ schedules) k job is h =
    let (_, fresh, h') = >>=-eq-ok (reject_if (is_some (get s.name cron)) _) _ h in
    gather_schedules-keeps (insert s.name (cron_of s) cron) out schedules k job
      (insert-kept cron s.name k (cron_of s) job
        (none_of (get s.name cron) (reject_if-eq-ok _ _ fresh)) is)
      h'

gather_schedules-IsScheduled :
    (cron out : Entries ManifestCron) (schedules : List ManifestScheduleV2)
    → gather_schedules cron schedules ≡ ok out
    → All (IsScheduled out) schedules
unfolding gather_schedules
gather_schedules-IsScheduled cron out [] h = tt
gather_schedules-IsScheduled cron out (s ∷ schedules) h =
    let (_, fresh, h') = >>=-eq-ok (reject_if (is_some (get s.name cron)) _) _ h in
    (
      gather_schedules-keeps (insert s.name (cron_of s) cron) out schedules s.name (cron_of s)
          (get-insert s.name s.name (cron_of s) cron ∙ rw (==_refl s.name) refl) h',
      gather_schedules-IsScheduled (insert s.name (cron_of s) cron) out schedules h',
    )

module _ {V : Type 0} where
  abbrev pub IsNormal : ApplicationManifestV2 V → ApplicationManifest V → Type 0
  IsNormal document m =
      (m.schema_version ≡ document.schema_version)
      × All (IsKept m.web m.workers) document.processes
      × All (IsScheduled m.cron) document.schedules

  normalize_kept :
      (document : ApplicationManifestV2 V) (m : ApplicationManifest V)
      → Distinct (map (λ entry. entry.0) document.processes)
      → normalize document ≡ ok m
      → IsNormal document m
  unfolding normalize
  normalize_kept document m distinct h =
      let (_, _, h1) =
        >>=-eq-ok (reject_if (not (nat_beq document.schema_version manifest_schema_version)) _) _
          h in
      let (_, _, h2) = >>=-eq-ok (normalize_runtime document.runtime) _ h1 in
      let (sorted, gathered, h3) = >>=-eq-ok (sort_processes _ document.processes) _ h2 in
      let (cron, timed, h4) = >>=-eq-ok (gather_schedules [] document.schedules) _ h3 in
      subst (IsNormal document) (ok-injective h4) (
        refl,
        sort_processes-IsKept _ sorted document.processes distinct gathered,
        gather_schedules-IsScheduled [] cron document.schedules timed,
      )

  normalize-bare :
      (policy : ProcessRestartPolicy) (document : ApplicationManifestV2 V)
      → normalize (record document { processes = map (bare policy) document.processes })
        ≡ normalize document
  unfolding normalize
  normalize-bare policy document =
      rw (sort_processes-bare policy (record { web = none; workers = [] }) document.processes) refl

  -- Where a document, whose processes have distinct names, is normalised, each web process is the
  -- web process of the manifest with its command and its port, each worker is there under its name
  -- with all that it has, each schedule is a cron job under its name, and the schema version is
  -- kept. But of a web process no more than its command and its port comes through: the document
  -- with the environment, the working directory and the health of its web processes removed, and
  -- any restart policy in place of theirs, is normalised to the same manifest.
  pub normalize-IsNormal :
      (policy : ProcessRestartPolicy) (document : ApplicationManifestV2 V)
      (m : ApplicationManifest V)
      → Distinct (map (λ entry. entry.0) document.processes)
      → normalize document ≡ ok m
      → IsNormal document m
        × (normalize (record document { processes = map (bare policy) document.processes }) ≡ ok m)
  normalize-IsNormal policy document m distinct h =
      (normalize_kept document m distinct h, normalize-bare policy document ∙ h)

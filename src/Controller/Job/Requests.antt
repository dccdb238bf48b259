-- ===== src/Controller/Job/Requests.antt =====
-- What holds of each job and each secret that CreateRunnerJob asks for.
use building_block_runner.Prelude.{
  ℕ, ◌≤◌, String, len, Bool, true, [], ◌∷◌, ◌≡◌, ◌/◌, ◌*◌, false, ltb, refl, All, arith, some, ◌<>◌,
}
use building_block_runner.Controller.Config.{JobSpecTemplate}
use building_block_runner.Controller.Subject.{
  RunInfo, WifDto, kubernetes_wif, render_subject_template,
}
use building_block_runner.Controller.Subject.Laws.{is_plain, kubernetes_wif-render_subject_template}
use building_block_runner.Controller.World.{
  answer, Event, create_secret, create_job, History, World,
}
use building_block_runner.Controller.Cluster.{KubernetesClient}
use building_block_runner.Controller.Cluster.Known.{CanStart, Invariant, is_minor}
use building_block_runner.Controller.Rules.{run_keeps}
use building_block_runner.Controller.Job.{
  create_runner_job, runner_job, effective_max_run_json_size, estimate_run_json_size,
}
use building_block_runner.Controller.Job.Provided.{names_secret}
use building_block_runner.Controller.Job.Sound.{create_runner_job-Keeps}

-- `base64.StdEncoding.DecodedLen`: the most bytes that a text of this length decodes to.
abbrev pub DecodesWithin : World → Type 0
DecodesWithin w =
    (encoded text : String) → w.decode_base64 encoded ≡ answer text → len text ≤ len encoded / 4 * 3

-- Each secret of a run's data holds at most the limit.
abbrev pub HoldsAtMost : ℕ → Event → Type 0
HoldsAtMost limit (create_secret s succeeded) =
    All (λ (entry : String × String). len entry.1 ≤ limit) s.content
HoldsAtMost limit _ = Unit

HoldsAtMost-Invariant :
    (configured : String → Bool) (limit : ℕ)
    → Invariant (λ text. len text ≤ limit) (λ _. Unit) configured (All (HoldsAtMost limit))
HoldsAtMost-Invariant configured limit = record {
  minor = λ e h minor p. (minor_lem e minor, p);
  secret = λ s succeeded h small p. (small, p);
  job = λ j succeeded h runs can p. (tt, p);
}
  where
    minor_lem : (e : Event) → is_minor e ≡ true → HoldsAtMost limit e
    minor_lem (create_secret s succeeded) minor = ground arith
    minor_lem _ minor = tt

-- Every job asked for can start.
abbrev pub CouldStart : (String → Bool) → History → Type 0
CouldStart configured (create_job j succeeded ∷ h) =
    CanStart configured j h × CouldStart configured h
CouldStart configured (e ∷ h) = CouldStart configured h
CouldStart configured [] = Unit

CouldStart-Invariant :
    (Small : String → Type 0) (configured : String → Bool)
    → Invariant Small (λ _. Unit) configured (CouldStart configured)
CouldStart-Invariant Small configured = record {
  minor = minor_lem;
  secret = λ s succeeded h small p. p;
  job = λ j succeeded h runs can p. (can, p);
}
  where
    minor_lem :
        (e : Event) (h : History)
        → is_minor e ≡ true
        → CouldStart configured h
        → CouldStart configured (e ∷ h)
    minor_lem (create_job j succeeded) h minor p = ground arith
    minor_lem _ h minor p = p

fits_lem :
    (run_json text : String)
    → ltb effective_max_run_json_size (estimate_run_json_size run_json) ≡ false
    → len text ≤ len run_json / 4 * 3
    → len text ≤ effective_max_run_json_size
unfolding estimate_run_json_size
fits_lem run_json text fits decoded = ground (arith, fits, decoded)

-- Where the base64 of a text decodes to no more bytes than `DecodedLen` says: the entries of every named
-- secret that is asked for, the run's data, hold at most 1 038 336 bytes, if it was so before.
pub create_runner_job-HoldsAtMost :
    (w : World) (k : KubernetesClient) (info : RunInfo) (run_json impl_type : String)
    (spec : JobSpecTemplate) (h : History)
    → DecodesWithin w
    → All (HoldsAtMost effective_max_run_json_size) h
    → All
        (HoldsAtMost effective_max_run_json_size)
        (create_runner_job w k info run_json impl_type spec h).1
create_runner_job-HoldsAtMost w k info run_json impl_type spec h decodes =
    run_keeps
      (create_runner_job-Keeps w k (HoldsAtMost-Invariant (λ _. true) effective_max_run_json_size)
        info run_json impl_type spec (λ name named. refl)
        (λ text fits e. fits_lem run_json text fits (decodes run_json text e))
        (λ token resources. tt))
      h

-- Every job that is asked for runs as a service account that was found or created before, and each of
-- its volumes that is filled from a secret has one that was found or created before or that the job's
-- template names, if it was so before.
pub create_runner_job-CouldStart :
    (w : World) (k : KubernetesClient) (info : RunInfo) (run_json impl_type : String)
    (spec : JobSpecTemplate) (h : History)
    → CouldStart (names_secret spec.extra_volumes) h
    → CouldStart
        (names_secret spec.extra_volumes)
        (create_runner_job w k info run_json impl_type spec h).1
create_runner_job-CouldStart w k info run_json impl_type spec h =
    let named = names_secret spec.extra_volumes in
    run_keeps
      (create_runner_job-Keeps w k (CouldStart-Invariant (λ _. Unit) named) info run_json impl_type
        spec (λ name it. it) (λ text fits e. tt) (λ token resources. tt))
      h

-- A job's pod runs as the subject: what Kubernetes names the service account of the pod.
abbrev pub RunsAs : String → Event → Type 0
RunsAs subject (create_job j succeeded) =
    subject ≡ "system:serviceaccount:" <> j.namespace <> ":" <> j.service_account_name
RunsAs subject _ = Unit

RunsAs-Invariant :
    (configured : String → Bool) (subject : String)
    → Invariant
        (λ _. Unit)
        (λ j. subject ≡ "system:serviceaccount:" <> j.namespace <> ":" <> j.service_account_name)
        configured
        (All (RunsAs subject))
RunsAs-Invariant configured subject = record {
  minor = λ e h minor p. (minor_lem e minor, p);
  secret = λ s succeeded h small p. (tt, p);
  job = λ j succeeded h runs can p. (runs, p);
}
  where
    minor_lem : (e : Event) → is_minor e ≡ true → RunsAs subject e
    minor_lem (create_job j succeeded) minor = ground arith
    minor_lem _ minor = tt

-- Where the cluster's issuer was discovered and the namespace has no opening brace: the subject template
-- that is registered with meshStack, filled in for a run's definition, is the subject as which the pod of
-- every job runs that is asked for, if it was so before: the job's namespace and its service account.
pub create_runner_job-kubernetes_wif :
    (w : World) (k : KubernetesClient) (info : RunInfo) (run_json impl_type : String)
    (spec : JobSpecTemplate) (h : History) (oidc_issuer : String) (wif : WifDto)
    → kubernetes_wif k.config.namespace oidc_issuer ≡ some wif
    → is_plain k.config.namespace ≡ true
    → All (RunsAs (render_subject_template wif.subject_template info)) h
    → All
        (RunsAs (render_subject_template wif.subject_template info))
        (create_runner_job w k info run_json impl_type spec h).1
unfolding runner_job
create_runner_job-kubernetes_wif w k info run_json impl_type spec h oidc_issuer wif registered
      plain =
    let subject = render_subject_template wif.subject_template info in
    run_keeps
      (create_runner_job-Keeps w k (RunsAs-Invariant (λ _. true) subject) info run_json impl_type
        spec (λ name named. refl) (λ text fits e. tt)
        (λ token resources.
          kubernetes_wif-render_subject_template k.config.namespace oidc_issuer wif info registered
            plain))
      h

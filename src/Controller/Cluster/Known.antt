-- ===== src/Controller/Cluster/Known.antt =====
-- Invariants of the calls for a run: each step keeps them, and makes known what it found or created.
use building_block_runner.Prelude.{
  String, Bool, true, false, some, ◌∷◌, ◌≡◌, ◌||◌, str_eq, any, All,
}
use building_block_runner.Controller.Pod.{Job, Volume, VolumeSource}
use building_block_runner.Controller.World.{
  Answer, answer, refusal, Secret, Event, create_secret, generate_secret, get_secret,
  create_account, get_account, create_job, fetch_run, register_source, update_run_status, started,
  History,
}
use building_block_runner.Controller.Exec.{Exec, call, note, raise}
use building_block_runner.Controller.Rules.{Triple, Always, Triple-raise, Triple-note, Triple-call}

-- The secret was found or created.
abbrev pub makes_secret_known : String → Event → Bool
makes_secret_known name (create_secret secret true) = str_eq secret.name name
makes_secret_known name (generate_secret secret (some created)) = str_eq created name
makes_secret_known name (get_secret namespace read true) = str_eq read name
makes_secret_known name _ = false

abbrev pub makes_account_known : String → Event → Bool
makes_account_known name (create_account account true) = str_eq account.name name
makes_account_known name (get_account namespace read true) = str_eq read name
makes_account_known name _ = false

abbrev pub knows_secret : String → History → Bool
knows_secret name h = any (makes_secret_known name) h

abbrev pub knows_account : String → History → Bool
knows_account name h = any (makes_account_known name) h

-- The calls for a run, but for those that create a named secret or a job.
abbrev pub is_minor : Event → Bool
is_minor (create_secret secret done) = false
is_minor (create_job job done) = false
is_minor (fetch_run run) = false
is_minor (register_source run done) = false
is_minor (update_run_status run status summary message) = false
is_minor (started run) = false
is_minor _ = true

-- A volume that is filled from a secret: the secret is known, or the job's template names it.
abbrev pub IsProvided : (String → Bool) → History → VolumeSource → Type 0
IsProvided configured h (VolumeSource.secret_source name) =
    (knows_secret name h || configured name) ≡ true
IsProvided configured h _ = Unit

-- What is known when a job is created.
abbrev pub CanStart : (String → Bool) → Job → History → Type 0
CanStart configured job h =
    (knows_account job.service_account_name h ≡ true)
    × All (λ (v : Volume). IsProvided configured h v.source) job.volumes

-- A property of the history that the calls for a run keep: `Small` is what is known of the texts in its
-- secrets, and `Runs` of its job.
pub record Invariant (Small : String → Type 0) (Runs : Job → Type 0) (configured : String → Bool)
    (P : History → Type 0) : Type 0 where
  pub minor : (e : Event) (h : History) → is_minor e ≡ true → P h → P (e ∷ h)
  pub secret :
      (s : Secret) (done : Bool) (h : History)
      → All (λ (entry : String × String). Small entry.1) s.content
      → P h
      → P (create_secret s done ∷ h)
  pub job :
      (j : Job) (done : Bool) (h : History)
      → Runs j
      → CanStart configured j h
      → P h
      → P (create_job j done ∷ h)

-- What stays known.
abbrev pub Grows : (History → Type 0) → Type 0
Grows M = (e : Event) (h : History) → M h → M (e ∷ h)

abbrev pub Both : (History → Type 0) → (History → Type 0) → History → Type 0
Both P M h = P h × M h

abbrev pub Keeps : (P M : History → Type 0) {E A : Type 0} → Exec E A → Type 0
Keeps P M m = Triple (Both P M) m (Always (Both P M)) (Always P) P

module _ {Small : String → Type 0} {Runs : Job → Type 0} {configured : String → Bool}
    {P : History → Type 0} (invariant : Invariant Small Runs configured P) {M : History → Type 0}
    (grows : Grows M) where
  pub Both-is_minor : (e : Event) (h : History) → is_minor e ≡ true → Both P M h → Both P M (e ∷ h)
  Both-is_minor e h minor (p, m) = (invariant.minor e h minor p, grows e h m)

  pub Keeps-call :
      {A : Type 0} (event : Answer A → Event) (reply : History → Answer A)
      → ((a : Answer A) → is_minor (event a) ≡ true)
      → Triple (Both P M) (call event reply) (Always (Both P M)) (Always (Both P M)) P
  Keeps-call event reply minor =
      Triple-call _ _ (λ h a both _. Both-is_minor (event (answer a)) h (minor (answer a)) both)
        (λ h e both. Both-is_minor (event (refusal e)) h (minor (refusal e)) both)

  pub Keeps-note : {E : Type 0} (e : Event) → is_minor e ≡ true → Keeps P M (note {E = E} e)
  Keeps-note e minor = Triple-note _ λ h both. Both-is_minor e h minor both

  Keeps-raise : {E A : Type 0} (e : E) → Keeps P M (raise {A = A} e)
  Keeps-raise e = Triple-raise _ λ h both. both.0

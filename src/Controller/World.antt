-- ===== src/Controller/World.antt =====
-- What the run controller asks of the world outside its code: the Kubernetes API, meshStack's run API,
-- the issuer of workload identity tokens. Every answer may depend on all that happened before.
use building_block_runner.Prelude.{String, Bool, Option, List}
use building_block_runner.Controller.Pod.{Job}

-- A Go `error`, by its text.
abbrev pub Error : Type 0
Error = String

pub data Answer (A : Type 0) : Type 0 where
  answer : A → Answer A
  refusal : Error → Answer A

-- The owner reference that names a job: it blocks the owner's deletion and is its controller.
pub record OwnerReference : Type 0 where
  pub name : String
  pub uid : String

-- `generate_name` is the empty text for a secret with a name of its own.
pub record Secret : Type 0 where
  pub name : String
  pub generate_name : String
  pub namespace : String
  pub labels : List (String × String)
  pub content : List (String × String)
  pub owners : List OwnerReference

pub record ServiceAccount : Type 0 where
  pub name : String
  pub namespace : String
  pub labels : List (String × String)

pub record CreatedJob : Type 0 where
  pub name : String
  pub uid : String

-- One condition of a job's status: its type, and whether its status is "True".
pub record JobCondition : Type 0 where
  pub condition : String
  pub status : String

pub record ListedJob : Type 0 where
  pub conditions : List JobCondition

-- A secret is there, is not found, or the call failed.
pub data Found : Type 0 where
  found : Secret → Found
  not_found : Found
  get_failed : Error → Found

-- metrics.go: the counters that the modelled code increments, each with its error type where it has one.
pub data Metric : Type 0 where
  jobs_created_total : Metric
  job_creation_errors : String → Metric
  service_accounts_created_total : Metric
  service_account_creation_errors : Metric
  wif_tokens_issued_total : Metric
  wif_token_errors : Metric
  decryption_errors : Metric
  jobs_at_capacity_skips : Metric

-- One call with the arguments that the code chose, and whether it found or did what it is for.
pub data Event : Type 0 where
  counted : Metric → Event
  get_job : String → String → Bool → Event
  create_job : Job → Bool → Event
  list_jobs : String → String → Event
  get_account : String → String → Bool → Event
  create_account : ServiceAccount → Bool → Event
  get_secret : String → String → Bool → Event
  create_secret : Secret → Bool → Event
  generate_secret : Secret → Option String → Event
  update_secret : Secret → Bool → Event
  delete_secret : String → String → Event
  issue_token : String → String → Event
  warn_token_missing : String → Event
  fetch_run : Option String → Event
  register_source : String → Bool → Event
  update_run_status : String → String → String → String → Event
  started : String → Event

-- Newest first.
abbrev pub History : Type 0
History = List Event

-- The Kubernetes API, the token issuer and its warnings. Of a `Get` of a job or of a service account the
-- code reads only whether it succeeded; a created secret without a name gets one.
pub record World : Type 0 where
  pub has_job : History → String → String → Bool
  pub new_job : History → Job → Answer CreatedJob
  pub jobs_with : History → String → String → Answer (List ListedJob)
  pub has_account : History → String → String → Bool
  pub new_account : History → ServiceAccount → Answer (Unit {0})
  pub find_secret : History → String → String → Found
  pub new_secret : History → Secret → Answer (Unit {0})
  pub new_generated_secret : History → Secret → Answer String
  pub change_secret : History → Secret → Answer (Unit {0})
  pub remove_secret : History → String → String → Answer (Unit {0})
  pub token_of : History → String → String → Answer String
  pub warning : History → String → Answer (Unit {0})
  pub decode_base64 : String → Answer String
  pub parse_quantity : String → Option String

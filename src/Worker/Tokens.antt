-- ===== src/Worker/Tokens.antt =====
-- manager.go and the loop of worker.go: the one worker and the manager hand tokens to each other over
-- two channels of capacity 1.
pub mod Laws
pub mod Liveness
mod Tests
use building_block_runner.Prelude.{
  ℕ, zero, suc, String, Bool, true, false, Option, none, some, ◌≡◌, contains, ◌==◌, ◌||◌, ◌⊎◌,
  if◌then◌else◌,
}

-- workerToken
pub data Token : Type 0 where
  work done norun failed stop stopped : Token

-- What FetchRunDetails returns: a run, a status error, or another error.
pub data Fetch : Type 0 where
  fetched : Fetch
  status_error : ℕ → Fetch
  other_error : String → Fetch

abbrev chunked_twice : String
chunked_twice =
    "transport connection broken: too many transfer encodings: [\"chunked\" \"chunked\"]"

-- The token for the manager after a fetch: handleFetchRunError, or `done` after the execution.
abbrev pub answer_to_fetch : Fetch → Token
answer_to_fetch fetched = done
answer_to_fetch (status_error code) = if code == 404 || code == 409 then norun else failed
answer_to_fetch (other_error text) = if contains text chunked_twice then norun else failed

-- The worker waits for a token, has fetched, has the token `stopped` to send, or has left its loop.
pub data Worker : Type 0 where
  waiting : Worker
  fetching : Worker
  stopping : Worker
  halted : Worker

-- `handouts` counts the goroutines of handoutWorkerToken that still wait; `sending` is the token that
-- one of them has chosen and not sent yet. `handling` is the flag of handleWorkers.
pub record Manager : Type 0 where
  pub worker : Worker
  pub worker_in : Option Token
  pub manager_in : Option Token
  pub handouts : ℕ
  pub sending : Option Token
  pub shutdown : Bool
  pub stopped_workers : ℕ
  pub handling : Bool

-- The token that handoutWorkerToken chooses.
abbrev pub handed_out : Bool → Token
handed_out true = stop
handed_out false = work

-- The state when `run` has put the first token and started the worker.
abbrev pub run : Manager
run = record {
  worker = waiting;
  worker_in = some work;
  manager_in = none;
  handouts = 0;
  sending = none;
  shutdown = false;
  stopped_workers = 0;
  handling = true;
}

-- One step of one goroutine. A send waits until the channel is empty.
pub data Step (m : Manager) : Manager → Type 0 where
  take_work :
      m.worker ≡ waiting
      → m.worker_in ≡ some work
      → Step m (record m { worker = fetching; worker_in = none })
  take_stop :
      m.worker ≡ waiting
      → m.worker_in ≡ some stop
      → Step m (record m { worker = stopping; worker_in = none })
  answer :
      (f : Fetch)
      → m.worker ≡ fetching
      → m.manager_in ≡ none
      → Step m (record m { worker = waiting; manager_in = some (answer_to_fetch f) })
  leave :
      m.worker ≡ stopping
      → m.manager_in ≡ none
      → Step m (record m { worker = halted; manager_in = some stopped })
  hand_out_after :
      (t : Token)
      → (t ≡ done) ⊎ (t ≡ norun) ⊎ (t ≡ failed)
      → m.handling ≡ true
      → m.manager_in ≡ some t
      → Step m (record m { manager_in = none; handouts = suc m.handouts })
  handle_stopped :
      m.handling ≡ true
      → m.manager_in ≡ some stopped
      → Step m (record m {
        manager_in = none;
        stopped_workers = suc m.stopped_workers;
        handling = if suc m.stopped_workers == 1 then false else m.handling;
      })
  choose :
      (n : ℕ)
      → m.handouts ≡ suc n
      → m.sending ≡ none
      → Step m (record m { handouts = n; sending = some (handed_out m.shutdown) })
  send :
      (t : Token)
      → m.sending ≡ some t
      → m.worker_in ≡ none
      → Step m (record m { sending = none; worker_in = some t })

-- The states that can be reached: by the goroutines, and by a call of Stop at any time.
pub data Reachable : Manager → Type 0 where
  start : Reachable run
  next : (m m' : Manager) → Reachable m → Step m m' → Reachable m'
  shut_down : (m : Manager) → Reachable m → Reachable (record m { shutdown = true })

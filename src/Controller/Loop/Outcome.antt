-- ===== src/Controller/Loop/Outcome.antt =====
-- What becomes of a claimed run.
use building_block_runner.Prelude.{String, true, false, none, some, ◌∷◌, ◌≡◌, refl, ◌⊎◌, inl, inr}
use building_block_runner.Controller.World.{
  Error, Answer, answer, refusal, counted, decryption_errors, fetch_run, register_source,
  update_run_status, History,
}
use building_block_runner.Controller.RunDetails.{to_runner_type}
use building_block_runner.Controller.Exec.{
  Go, done, failure, crash, pure, call, answered, on_error, note, ◌>>=◌,
}
use building_block_runner.Controller.Decryption.{decrypt_run_details}
use building_block_runner.Controller.Job.{DispatchError}
use building_block_runner.Controller.Dispatch.{Dispatcher}
use building_block_runner.Controller.Rules.{
  Triple, Always, Ends, Triple-pure, Triple-bind, Triple-on_error, Triple-call,
}
use building_block_runner.Controller.Loop.{
  RunApi, Fetched, ProcessResult, run_processed, no_run_available, process_failed, claimed,
  report_run_failure, fail_run, dispatch_run, process_decrypted, process_next_run,
}

-- The last call registered the controller as a source for the run, or it failed to.
abbrev pub IsRegistered : String → History → Type 0
IsRegistered run (register_source id true ∷ h) = id ≡ run
IsRegistered run _ = ⊥

-- The last calls report the run as failed, or fail to register for that.
abbrev pub IsReported : String → History → Type 0
IsReported run (update_run_status id status summary message ∷ h) =
    (id ≡ run) × (status ≡ "FAILED") × IsRegistered run h
IsReported run (register_source id false ∷ h) = id ≡ run
IsReported run _ = ⊥

abbrev pub Nowhere : {E : Type 0} → E → History → Type 0
Nowhere e h = ⊥

abbrev pub Anywhere : History → Type 0
Anywhere h = Unit

module _ (api : RunApi) (d : Dispatcher) where
  -- A run that was fetched at `h` cannot be started: its implementation has no type, or the dispatcher
  -- that it was handed to fails.
  abbrev pub CannotStart : Fetched → History → Type 0
  CannotStart f h =
      (decrypted : String) × (decrypt_run_details api.codec api.decrypt f.run_json_base64
        ≡ answer decrypted)
      × (((e : Error) × (api.codec.implementation_type f.run.implementation ≡ refusal e))
          ⊎ (impl_type : String) × (e : DispatchError) × (h' : History)
            × (api.codec.implementation_type f.run.implementation ≡ answer impl_type)
            × (d.dispatch f.run decrypted (to_runner_type impl_type) h ≡ (failure e, h')))

  -- How a run that was fetched at `h` ends at `h'`, by the result.
  abbrev pub FetchedRunEnds : Fetched → History → ProcessResult → History → Type 0
  FetchedRunEnds f h run_processed h' =
      (decrypted : String) × (impl_type : String) × (decrypt_run_details api.codec api.decrypt
          f.run_json_base64
        ≡ answer decrypted)
      × (api.codec.implementation_type f.run.implementation ≡ answer impl_type)
      × (d.dispatch f.run decrypted (to_runner_type impl_type) h ≡ (done tt, h'))
  FetchedRunEnds f h process_failed h' =
      CannotStart f h × IsReported f.run.uuid h'
      ⊎ ((e : Error) × (decrypt_run_details api.codec api.decrypt f.run_json_base64 ≡ refusal e)
          × (h' ≡ counted decryption_errors ∷ h))
  FetchedRunEnds f h no_run_available h' = ⊥

  abbrev pub RunEnds : Answer Fetched → History → ProcessResult → History → Type 0
  RunEnds (answer f) h result h' = FetchedRunEnds f (fetch_run (some f.run.uuid) ∷ h) result h'
  RunEnds (refusal e) h no_run_available h' = h' ≡ fetch_run none ∷ h
  RunEnds (refusal e) h _ h' = ⊥

  report_run_failure-IsReported :
      {E : Type 0} (run_id message : String)
      → Triple Anywhere
          (report_run_failure api d {E = E} run_id message)
          (Always (IsReported run_id))
          Nowhere
          Anywhere
  unfolding report_run_failure
  report_run_failure-IsReported run_id message =
      Triple-on_error _ _ _
        (Triple-call {Q = Always (IsRegistered run_id)} {F = Always (IsReported run_id)} _ _
          (λ h a p e. refl) (λ h e p. refl))
        (λ _. Triple-pure _ λ h p. p)
        (λ _.
          Triple-on_error _ _ _
            (Triple-call {Q = Always (IsReported run_id)} {F = Always (IsReported run_id)} _ _
              (λ h a p e. (refl, refl, p)) (λ h e p. (refl, refl, p)))
            (λ _. Triple-pure _ λ h p. p) (λ _. Triple-pure _ λ h p. p))

  fail_run-FetchedRunEnds :
      {E : Type 0} (f : Fetched) (h : History) (message : String)
      → CannotStart f h
      → Triple Anywhere
          (fail_run api d {E = E} f.run.uuid message)
          (FetchedRunEnds f h)
          Nowhere
          Anywhere
  unfolding fail_run
  fail_run-FetchedRunEnds f h message cannot =
      Triple-bind _ _ (report_run_failure-IsReported f.run.uuid message)
        λ _. Triple-pure process_failed λ h' reported. inl (cannot, reported)

  -- After the dispatcher answered at `h` with `r` and `h'`.
  dispatched_lem :
      (f : Fetched) (decrypted impl_type : String) (h : History) (message : DispatchError → String)
      (r : Go DispatchError (Unit {0})) (h' : History)
      → decrypt_run_details api.codec api.decrypt f.run_json_base64 ≡ answer decrypted
      → api.codec.implementation_type f.run.implementation ≡ answer impl_type
      → d.dispatch f.run decrypted (to_runner_type impl_type) h ≡ (r, h')
      → let end : Go Error ProcessResult × History =
          on_error
            (λ (_ : History). (r, h'))
            (λ e. fail_run api d f.run.uuid (message e))
            (λ _. pure run_processed)
            h in
        Ends (FetchedRunEnds f h) Nowhere Anywhere end.0 end.1
  unfolding on_error pure
  dispatched_lem f decrypted impl_type h message (done it) h' opened typed sent =
      (decrypted, impl_type, opened, typed, sent)
  dispatched_lem f decrypted impl_type h message (failure e) h' opened typed sent =
      (fail_run-FetchedRunEnds f h (message e)
          (decrypted, opened, inr (impl_type, e, h', typed, sent))).at
        h' tt
  dispatched_lem f decrypted impl_type h message crash h' opened typed sent = tt

  decrypted_lem :
      (f : Fetched) (decrypted : String) (a : Answer String) (h : History)
      → decrypt_run_details api.codec api.decrypt f.run_json_base64 ≡ answer decrypted
      → api.codec.implementation_type f.run.implementation ≡ a
      → let end = dispatch_run api d {E = Error} f.run decrypted a h in
        Ends (FetchedRunEnds f h) Nowhere Anywhere end.0 end.1
  unfolding dispatch_run on_error
  decrypted_lem f decrypted (refusal e) h opened typed =
      (fail_run-FetchedRunEnds f h _ (decrypted, opened, inl (e, typed))).at h tt
  decrypted_lem f decrypted (answer impl_type) h opened typed =
      let (r, h') = d.dispatch f.run decrypted (to_runner_type impl_type) h in
      dispatched_lem f decrypted impl_type h _ r h' opened typed refl

  opened_lem :
      (f : Fetched) (a : Answer String) (h : History)
      → decrypt_run_details api.codec api.decrypt f.run_json_base64 ≡ a
      → let end = process_decrypted api d {E = Error} f.run a h in
        Ends (FetchedRunEnds f h) Nowhere Anywhere end.0 end.1
  unfolding process_decrypted note ◌>>=◌ pure
  opened_lem f (refusal e) h opened = inr (e, opened, refl)
  opened_lem f (answer decrypted) h opened = decrypted_lem f decrypted _ h opened refl

  fetched_lem :
      (a : Answer Fetched) (h : History)
      → let end : Go Error ProcessResult × History =
          on_error
            (λ (_ : History). (answered a, fetch_run (claimed a) ∷ h))
            (λ _. pure no_run_available)
            (λ f.
              process_decrypted api d f.run
                (decrypt_run_details api.codec api.decrypt f.run_json_base64))
            h in
        Ends (RunEnds a h) Nowhere Anywhere end.0 end.1
  unfolding on_error answered pure
  fetched_lem (refusal e) h = refl
  fetched_lem (answer f) h = opened_lem f _ _ refl

  -- Unless the dispatcher panics, one step never fails, and a run that was claimed in it was handed to the
  -- dispatcher, decrypted and with the runner type of its implementation, and accepted; or its
  -- implementation has no type or the dispatcher failed for it, and then it was reported as failed, or
  -- registering for that failed; or it could not be decrypted, and then nothing more was done. A step that
  -- claims nothing does nothing.
  pub process_next_run-RunEnds :
      (h : History)
      → Ends
          (RunEnds (api.fetch_run_details h) h)
          Nowhere
          Anywhere
          (process_next_run api d {E = Error} h).0
          (process_next_run api d {E = Error} h).1
  unfolding process_next_run on_error call
  process_next_run-RunEnds h = fetched_lem (api.fetch_run_details h) h

-- ===== src/Lib.antt =====
-- The building block runner, a set of Go programs that fetch runs of building blocks from meshStack
-- and carry them out. This library models the part that carries out one run with OpenTofu, the package
-- tf-block-runner/tfrun, from the first step to the last report; the run controller, the package
-- run-controller/controller, which claims runs and places each as a job in Kubernetes, with the issuer
-- of a run's workload identity token, run-controller/keycloakwif; and, of the client of meshStack's API
-- that both share, go-meshapi-client, the cached token, what is made of an answer and the encryption.
--
-- A run has a behavior (APPLY, DETECT, DESTROY) and steps with a status each. A command for the
-- behavior works through the steps: it copies the sources, writes inputs and variables, initializes
-- OpenTofu and selects a workspace, runs the pre-run script, then applies, plans or destroys. After
-- every step, and whenever its log grows, it publishes a copy of the run's status, which another
-- goroutine, the observer, sends to meshStack: at each tick of a clock, and once more when the
-- command is done. A part that fails ends the command with a FAILED report.
--
-- Files, and what they model (paths from the repository's root):
--   Prelude               numbers, texts and association lists that the others share
--   Run.Kinds             tf-block-runner/tfrun/{executionstatus,behavior,datatype,stepids}.go
--   Run.Status            tf-block-runner/tfrun/runstatus.go: RunStatus, StepStatus
--   TfConfig              tf-block-runner/tfrun/{tfconfig_parse,backendsearch}.go
--   TfCmd.Outside         the calls that leave the repository's code, as functions of the history
--   TfCmd.Exec            the state of a command (the changing fields of RunContextInfo in
--                         runcontextinfo.go, the update log of logwrapper.go), and its effects
--   TfCmd.Params          the fixed fields: TfCmdParams, RunContextInfo, GitSource, TfRunnerConfig
--   TfCmd.Progress        tfcmd.go: startRun, advanceStep, completeRun, failWithUserMsg
--   TfCmd.Source          gitsource.go: CopyToTargetDir
--   TfCmd.Init            tfcmd.go: init, plainInit, detectBackend, createMeshStackHttpBackendFile
--   TfCmd.Workspace       tfcmd.go: selectWorkspace, useWorkspaceIfNeeded, deleteWorkspaceIfNeeded
--   TfCmd.Env             tfcmd.go: cleanSystemEnv, buildTfEnv; run.go: decryptIfSensitive
--   TfCmd.Inputs          tfcmd.go: saveInputFiles, extractContentFromDataUrl
--   TfCmd.Script          scriptcmd.go: RunScript; tfcmd.go: runPreRunScript
--   TfCmd.Vars            tfcmd.go: vars; tfcmd_vars.go; tf-block-runner/util/maps.go
--   TfCmd.Execute         tfapply.go, tfplan.go, tfdestroy.go: initRunSteps and execute
--   Controller.Config     run-controller/controller/config.go: the types; Config.Read: ReadConfig and its checks
--   Controller.Subject    dtos.go there: subjects of workload identities, what is registered
--   Controller.World      the calls of Kubernetes, of meshStack and of the token issuer, as events
--   Controller.Exec       sequences of such calls with errors and panics; Rules: proofs about them
--   Controller.Pod        kubernetes.go: createVolumes, createVolumeMounts, wifTokenVolumes, buildEnvVars,
--                         buildResourceRequirements, buildTolerations
--   Controller.Cluster    kubernetes.go, wiftoken.go: the service account and the secrets of a run
--   Controller.Job        kubernetes.go: CreateRunnerJob
--   Controller.Capacity   kubernetes.go: CountActiveJobs
--   Controller.RunDetails go-meshapi-client/meshapi/dtos.go: the data of a run that the controller reads
--   Controller.Decryption decryption.go: decryptRunDetails
--   Controller.Dispatch   dispatcher.go, run-controller/inprocess/dispatcher.go: both dispatchers
--   Controller.Loop       controller.go: drainRuns, availableCapacity, processNextRun, reportRunFailure
--   Meshapi.Auth          go-meshapi-client/meshapi/auth.go: ApiKeyAuth and its cached token
--   Meshapi.Client        go-meshapi-client/meshapi/client.go: what is made of the answers of meshStack
--   Crypto                go-meshapi-client/crypto/meshcertbasedcrypto.go, meshsymmetriccrypto.go: the
--                         frame of an encrypted value
--   Keycloak.Claims       run-controller/keycloakwif/claims.go: checkClaims
--   Keycloak.Issuer       run-controller/keycloakwif/issuer.go: Issue, which creates and deletes a client
--   Worker.Observer       worker.go, singlerunworker.go: workRoutine, observerRoutine, sendFinalStatus
--   Worker.Delivery       statusupdate.go: the attempts of updateStateWithRetry
--   Worker.Tokens         manager.go: DefaultRunManager; worker.go: work, handleFetchRunError
-- `Steps` and `Outputs` under TfCmd.Execute and `File` under TfCmd.Vars hold definitions; the other
-- modules below these hold proofs, and those named `Tests` examples, most of them of the command in
-- TfCmd.Example. `TfCmd.Keeps` and `TfCmd.Triple` are the rules for proofs about effects.
--
-- A command is a function from its state to a result and the state after. A result is a value, an
-- error or a run-time panic; what was changed before an error stays changed. Each call of git, of
-- OpenTofu through tfexec, of the file system, of the script's process and of the meshStack API is
-- recorded as an event, and its answer is an arbitrary function of all events before; so is whether the
-- update log's file can be read, which is not an event itself. So a theorem
-- holds for every behaviour of the world, in every order of failures. A Go map is an association
-- list, and its order is the order of one iteration. The observer's work is a sequence of signals, in
-- any order with the reports of the command; the manager and its worker are a step relation. No
-- definition uses fuel: every loop of this code runs over a list or a text.
--
-- The run controller is a sequence of calls over a history of events in the same way. A cycle runs to
-- its end or panics; the loop over the free places is a recursion on their number. The calls for a job
-- are followed by the rules of Controller.Rules, and Controller.Cluster.Known has the interface for
-- properties of the history that they keep. The issuer's requests to Keycloak are a list in the same
-- way, with the administrator's token as its state.
--
-- Not modelled: the operator's local logs; errors of writing the update log; the delays between
-- the attempts at an update (backoff.Retry); go-git and SSH set-up (git.go, authSsh.go); downloads of OpenTofu
-- (tfbinaries.go); the controller's ticker, start-up, metrics, registration and run API
-- (runapi.go); the URLs and headers of the requests of go-meshapi-client and most of its dtos.go,
-- and its reading of keys;
-- manual-block-runner and the Kotlin runners, which are other programs or libraries.
pub mod Prelude
pub mod Run
pub mod TfConfig
pub mod TfCmd
pub mod Controller
pub mod Meshapi
pub mod Keycloak
pub mod Crypto
pub mod Worker

-- ===== src/Meshapi/Client.antt =====
-- go-meshapi-client/meshapi/client.go: what the methods of Client make of a response.
pub mod Laws
use building_block_runner.Prelude.{
  ℕ, zero, suc, String, Bool, Option, none, some, List, [], ◌∷◌, ◌<>◌, ◌&&◌, ◌||◌, ◌==◌, ltb, leb,
  length, is_empty, if◌then◌else◌, ◌⊎◌, inl, inr,
}

-- An error, by its text; `StatusError` with its status, which errors.As finds in it; or a text that holds
-- the status and the body of the answer, of which the status is kept here.
pub data ClientError : Type 0 where
  status_error : ℕ → ClientError
  plain_error : String → ClientError
  http_error : ℕ → ClientError

pub data ClientResult (A : Type 0) : Type 0 where
  fine : A → ClientResult A
  faulty : ClientError → ClientResult A

-- The answer to a request: none came, with an error's text, or a status with the bytes of its body that
-- can be read and whether the body ends after them; otherwise reading on fails.
pub data HttpReply : Type 0 where
  no_response : String → HttpReply
  response : ℕ → List ℕ → Bool → HttpReply

abbrev pub is_success : ℕ → Bool
is_success status = leb 200 status && ltb status 300

-- `parse` is what ParseRunDetails makes of the body: the run's uuid, or the error's text.
unfoldable pub checked_run : String ⊎ String → List ℕ → ClientResult (String × List ℕ)
checked_run (inl e) body = faulty (plain_error ("failed to parse run JSON: " <> e))
checked_run (inr uuid) body =
    if is_empty uuid then faulty (plain_error "fetched run has no UUID") else fine (uuid, body)

-- FetchRun
unfoldable pub fetch_run : (List ℕ → String ⊎ String) → HttpReply → ClientResult (String × List ℕ)
unfolding checked_run
fetch_run parse (no_response e) = faulty (plain_error e)
fetch_run parse (response status body ends) =
    if status == 200 || status == 201
    then (if ends then checked_run (parse body) body else faulty (plain_error "unexpected EOF"))
    else faulty (status_error status)

abbrev pub max_artifact_bytes : ℕ
max_artifact_bytes = 134_217_728

-- The bytes of a body that a reader limited to `n` bytes gives.
unfoldable pub limited : ℕ → List ℕ → List ℕ
limited zero body = []
limited (suc n) [] = []
limited (suc n) (byte ∷ body) = byte ∷ limited n body

-- The end of DownloadArtifact. A limited reader that is at its limit reads no further, so that it does
-- not meet the failure behind the limit.
unfoldable pub copied : List ℕ → Bool → List ℕ × ClientResult (Unit {0})
copied written ends =
    if ltb max_artifact_bytes (length written)
    then (
      written,
      faulty (plain_error "artifact exceeds the maximum allowed size of 134217728 bytes"),
    )
    else (
      written,
      if ends then fine tt else faulty (plain_error "failed to read body: unexpected EOF"),
    )

-- DownloadArtifact: what is written to `w`, whose writes succeed, and the result.
unfoldable pub download_artifact : HttpReply → List ℕ × ClientResult (Unit {0})
unfolding copied limited
download_artifact (no_response e) = ([], faulty (plain_error ("request failed: " <> e)))
download_artifact (response status body ends) =
    if is_success status
    then copied (limited (suc max_artifact_bytes) body) ends
    else ([], faulty (http_error status))

-- UploadArtifact
unfoldable pub upload_artifact_to : HttpReply → ClientResult (Unit {0})
upload_artifact_to (no_response e) = faulty (plain_error ("request failed: " <> e))
upload_artifact_to (response status body ends) =
    if is_success status then fine tt else faulty (http_error status)

-- RegisterSourceAt: a conflict means that the source is already registered.
unfoldable pub register_source_at : HttpReply → ClientResult (Unit {0})
register_source_at (no_response e) = faulty (plain_error ("request failed: " <> e))
register_source_at (response status body ends) =
    if status == 409
    then fine tt
    else (if is_success status then fine tt else faulty (http_error status))

-- PatchStatusAt
unfoldable pub patch_status_at : HttpReply → ClientResult (List ℕ)
patch_status_at (no_response e) = faulty (plain_error ("request failed: " <> e))
patch_status_at (response status body ends) =
    if is_success status
    then (if ends
        then fine body
        else faulty (plain_error "failed to read response body: unexpected EOF"))
    else faulty (status_error status)

-- ===== src/Meshapi/Client/Laws.antt =====
-- A download that succeeds is complete.
use building_block_runner.Prelude.{
  ℕ, zero, suc, ◌≤◌, ◌<◌, Bool, true, false, List, [], ◌∷◌, ◌≡◌, refl, sym, ◌∙◌, ap, subst, length,
  arith, Bool-cases, inl, inr,
}
use building_block_runner.Meshapi.Client.{
  ClientResult, fine, faulty, HttpReply, no_response, response, limited, copied, download_artifact,
  max_artifact_bytes, is_success,
}

limited-length : (n : ℕ) (body : List ℕ) → length (limited n body) < n → limited n body ≡ body
unfolding limited
limited-length zero body short = ground arith
limited-length (suc n) [] short = refl
limited-length (suc n) (byte ∷ body) short = ap (◌∷◌ byte) (limited-length n body (omega arith))

length-limited : (n : ℕ) (body : List ℕ) → length (limited n body) ≤ n
unfolding limited
length-limited zero body = omega arith
length-limited (suc n) [] = omega arith
length-limited (suc n) (byte ∷ body) = omega (arith, length-limited n body)

limited-short :
    (n : ℕ) (body : List ℕ) → length (limited (suc n) body) ≤ n → limited (suc n) body ≡ body
limited-short n body short = limited-length (suc n) body (omega (arith, short))

is_fine : {A : Type 0} → ClientResult A → Bool
is_fine (fine a) = true
is_fine (faulty e) = false

copied_lem :
    (written : List ℕ) (ends : Bool)
    → (copied written ends).1 ≡ fine tt
    → (length written ≤ max_artifact_bytes) × (ends ≡ true)
unfolding copied
copied_lem written ends ok = ground arith

copied-written : (written : List ℕ) (ends : Bool) → (copied written ends).0 ≡ written
unfolding copied
copied-written written ends = ground arith

download_artifact-is_success :
    (status : ℕ) (body : List ℕ) (ends : Bool)
    → is_success status ≡ true
    → download_artifact (response status body ends)
      ≡ copied (limited (suc max_artifact_bytes) body) ends
unfolding download_artifact
download_artifact-is_success status body ends good = rw good refl

-- A download succeeds only if the answer is a success, its body ends without an error within the maximum
-- size, and exactly the body was written.
pub download_artifact-fine :
    (status : ℕ) (body : List ℕ) (ends : Bool)
    → (download_artifact (response status body ends)).1 ≡ fine tt
    → (is_success status ≡ true)
      × (ends ≡ true)
      × (length body ≤ max_artifact_bytes)
      × ((download_artifact (response status body ends)).0 ≡ body)
unfolding download_artifact
download_artifact-fine status body ends ok = elim (Bool-cases (is_success status)) [
  | inl good ↦
      (let copy =
          copied_lem (limited (suc max_artifact_bytes) body) ends
            (sym (ap (λ r. r.1) (download_artifact-is_success status body ends good)) ∙ ok) in
        let whole = limited-short max_artifact_bytes body copy.0 in
        (
          good,
          copy.1,
          subst (λ b. length b ≤ max_artifact_bytes) whole copy.0,
          rw (good, copied-written) whole,
        ))
  | inr bad ↦ ground (arith, bad, ok)
]

-- A download writes at most one byte more than the maximum size.
pub length-download_artifact :
    (reply : HttpReply) → length ((download_artifact reply).0) ≤ suc max_artifact_bytes
unfolding download_artifact copied
length-download_artifact (no_response e) = omega arith
length-download_artifact (response status body ends) = elim (Bool-cases (is_success status)) [
  | inl good ↦ rw (good, copied-written) (length-limited (suc max_artifact_bytes) body)
  | inr bad ↦ rw bad (omega arith)
]

-- ===== src/Run/Status/Laws.antt =====
-- Laws of runstatus.go.
use building_block_runner.Prelude.{
  ℕ, zero, suc, ◌+◌, ◌≤◌, List, [], ◌∷◌, ◌++◌, map, ◌≡◌, refl, sym, ap, ◌∙◌, modify, replicate,
  length, arith,
}
use building_block_runner.Prelude.Int.{pos, negsuc}
use building_block_runner.Run.Kinds.{ExecutionStatus, succeeded, failed}
use building_block_runner.Run.Status.{
  StepStatus, RunStatus, statuses, update_current, modify_at, fail_steps_from,
  fail_run_and_not_finished_steps, clone, clone_step,
}

map-modify_commutes {ℓ κ} :
    {A : Type ℓ} {B : Type κ} (g : A → B) (f : A → A) (h : B → B)
    → ((x : A) → g (f x) ≡ h (g x))
    → (i : ℕ) (xs : List A) → map g (modify i f xs) ≡ modify i h (map g xs)
map-modify_commutes g f h e i [] = refl
map-modify_commutes g f h e zero (x ∷ xs) = ap (λ y. y ∷ map g xs) (e x)
map-modify_commutes g f h e (suc i) (x ∷ xs) =
    ap (λ ys. g x ∷ ys) (map-modify_commutes g f h e i xs)

-- A write to the current step that sets its status.
pub statuses-update_current :
    (f : StepStatus → StepStatus) (h : ExecutionStatus → ExecutionStatus)
    → ((x : StepStatus) → (f x).status ≡ h x.status)
    → (r : RunStatus) (k : ℕ) (st : List ExecutionStatus) → r.current_step_index ≡ pos k
    → statuses r.steps ≡ st
    → statuses (update_current f r).steps ≡ modify k h st
statuses-update_current f h e r k st at_k is_st =
    ap (λ i. statuses (modify_at i f r.steps)) at_k
    ∙ (map-modify_commutes (λ x. x.status) f h e k r.steps ∙ ap (modify k h) is_st)

modify-same {ℓ} : {A : Type ℓ} (k : ℕ) (xs : List A) → modify k (λ x. x) xs ≡ xs
modify-same k [] = refl
modify-same zero (x ∷ xs) = refl
modify-same (suc k) (x ∷ xs) = ap (λ ys. x ∷ ys) (modify-same k xs)

-- A write to the current step that leaves its status.
pub statuses-keep :
    (f : StepStatus → StepStatus)
    → ((x : StepStatus) → (f x).status ≡ x.status)
    → (r : RunStatus) → statuses (update_current f r).steps ≡ statuses r.steps
statuses-keep f e r =
    elim r.current_step_index as (λ i. statuses (modify_at i f r.steps) ≡ statuses r.steps) [
      | pos k ↦
          map-modify_commutes (λ x. x.status) f (λ x. x) e k r.steps
          ∙ modify-same k (statuses r.steps)
      | negsuc k ↦ refl
    ]

pub length-statuses : (steps : List StepStatus) → length (statuses steps) ≡ length steps
length-statuses [] = refl
length-statuses (s ∷ r) = ap suc (length-statuses r)

fail_later :
    (k idx : ℕ) (steps : List StepStatus)
    → k ≤ idx
    → statuses (fail_steps_from (pos k) idx steps) ≡ replicate (length steps) failed
unfolding fail_steps_from
fail_later k idx [] h = refl
fail_later k idx (s ∷ r) h = ground (arith, fail_later k (suc idx) r)

fail_from_current :
    (j idx : ℕ) (steps : List StepStatus) (st : List ExecutionStatus)
    → statuses steps ≡ replicate j succeeded ++ st
    → statuses (fail_steps_from (pos (idx + j)) idx steps)
      ≡ replicate j succeeded ++ replicate (length st) failed
unfolding fail_steps_from
fail_from_current zero idx steps st h =
    fail_later (idx + 0) idx steps (omega arith)
    ∙ ap (λ n. replicate n failed) (sym (length-statuses steps) ∙ ap length h)
fail_from_current (suc j) idx [] st h = ground arith
fail_from_current (suc j) idx (s ∷ r) st h = ground (arith, fail_from_current j (suc idx) r st)

-- Where the steps before the current one are SUCCEEDED, a failing run leaves them so and fails
-- the current one and all later ones.
pub fail_run_and_not_finished_steps-statuses :
    (r : RunStatus) (k : ℕ) (rest : List ExecutionStatus)
    → r.current_step_index ≡ pos k
    → statuses r.steps ≡ replicate k succeeded ++ rest
    → statuses (fail_run_and_not_finished_steps r).steps
      ≡ replicate k succeeded ++ replicate (length rest) failed
unfolding fail_run_and_not_finished_steps
fail_run_and_not_finished_steps-statuses r k rest at_k is_st =
    ap (λ i. statuses (fail_steps_from i 0 r.steps)) (at_k ∙ ap pos (omega arith))
    ∙ fail_from_current k 0 r.steps rest is_st

map-clone_step : (steps : List StepStatus) → map clone_step steps ≡ steps
map-clone_step [] = refl
map-clone_step (s ∷ r) = ap (λ t. s ∷ t) (map-clone_step r)

-- The copy that is published has the run's contents.
pub clone_lem : (r : RunStatus) → clone r ≡ r
unfolding clone
clone_lem r = ap (λ steps. record r { steps = steps }) (map-clone_step r.steps)

-- ===== src/Run/Kinds/Laws.antt =====
-- The names of behaviors.
use building_block_runner.Prelude.{String, some, ◌≡◌, refl, subst, ◌↔◌, str_eq_iff, arith}
use building_block_runner.Run.Kinds.{
  Behavior, apply, detect, destroy, behavior_str, determine_behavior, find_behavior,
}

-- A text determines a behavior exactly if it is that behavior's own name.
pub determine_behavior-behavior_str :
    (s : String) (b : Behavior) → (determine_behavior s ≡ some b) ↔ (behavior_str b ≡ s)
unfolding determine_behavior find_behavior behavior_str
determine_behavior-behavior_str s apply = (
  λ h.
      ground
        (arith, h, (str_eq_iff "APPLY" s).0, (str_eq_iff "DETECT" s).0, (str_eq_iff "DESTROY" s).0),
  λ h. subst (λ t. determine_behavior t ≡ some apply) h refl,
)
determine_behavior-behavior_str s detect = (
  λ h.
      ground
        (arith, h, (str_eq_iff "APPLY" s).0, (str_eq_iff "DETECT" s).0, (str_eq_iff "DESTROY" s).0),
  λ h. subst (λ t. determine_behavior t ≡ some detect) h refl,
)
determine_behavior-behavior_str s destroy = (
  λ h.
      ground
        (arith, h, (str_eq_iff "APPLY" s).0, (str_eq_iff "DETECT" s).0, (str_eq_iff "DESTROY" s).0),
  λ h. subst (λ t. determine_behavior t ≡ some destroy) h refl,
)

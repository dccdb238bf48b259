-- ===== src/Run/Kinds/Tests.antt =====
-- A behavior's name.
use building_block_runner.Prelude.{◌≡◌, some, ◌↔◌}
use building_block_runner.Run.Kinds.{detect, behavior_str, determine_behavior}
use building_block_runner.Run.Kinds.Laws.{determine_behavior-behavior_str}

determine_behavior-behavior_str_example :
    (determine_behavior "DETECT" ≡ some detect) ↔ (behavior_str detect ≡ "DETECT")
determine_behavior-behavior_str_example = determine_behavior-behavior_str "DETECT" detect

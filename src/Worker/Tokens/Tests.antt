-- ===== src/Worker/Tokens/Tests.antt =====
-- A worker that has taken its first token, and a Stop meanwhile.
use building_block_runner.Prelude.{refl, true, none}
use building_block_runner.Worker.Tokens.{
  Manager, run, Reachable, start, next, shut_down, fetching, take_work,
}
use building_block_runner.Worker.Tokens.Laws.{IsSound, Reachable-IsSound}
use building_block_runner.Worker.Tokens.Liveness.{CanMove, Reachable-Step}

abbrev taken : Manager
taken = record run { worker = fetching; worker_in = none }

abbrev stopped_meanwhile : Manager
stopped_meanwhile = record taken { shutdown = true }

taken-Reachable : Reachable stopped_meanwhile
taken-Reachable = shut_down taken (next run taken start (take_work refl refl))

Reachable-IsSound_example : IsSound stopped_meanwhile
Reachable-IsSound_example = Reachable-IsSound stopped_meanwhile taken-Reachable

Reachable-Step_example : CanMove stopped_meanwhile
Reachable-Step_example = Reachable-Step stopped_meanwhile taken-Reachable refl

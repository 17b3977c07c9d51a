-- ===== src/Tests/Loop.antt =====
-- The operations of the prover at p(X) and ¬p(a) ∨ p(X).
use richard_atp_engine.Prelude.{arith, true, ◌≡◌, refl, [], ◌∷◌, Post}
use richard_atp_engine.Infer.Resolution.Sound.{InferredAll}
use richard_atp_engine.Search.ClauseQueue.Listed.{bfs_queue}
use richard_atp_engine.Search.Prover.{
  Prover, prove, ProverConfig, default_config, new_prover, add_clauses, process_new_clauses,
  generate_new_clauses,
}
use richard_atp_engine.Search.Prover.Inferences.{generate_new_clauses-Inferred}
use richard_atp_engine.Search.Prover.Invariant.{
  IsSoundState, Processed, new_prover-IsSoundState, add_clauses-IsSoundState,
  process_new_clauses-IsSoundState,
}
use richard_atp_engine.Search.Prover.Rounds.{prove_enough_rounds}
use richard_atp_engine.Tests.Samples.{
  machine, machine_fits, machine_walks, p_engine, p_engine-IsSound,
}
use richard_atp_engine.Tests.Models.{p_holds, p_x, either, p_x-FollowsFrom, either-FollowsFrom}

abbrev checked_config : ProverConfig
checked_config = record default_config { enable_occurs_check = true }

new_prover-IsSoundState_test :
    IsSoundState p_holds machine machine_fits checked_config bfs_queue
      (new_prover machine checked_config bfs_queue p_engine)
new_prover-IsSoundState_test =
    new_prover-IsSoundState p_holds machine machine_fits checked_config bfs_queue p_engine
      p_engine-IsSound

add_clauses-IsSoundState_example :
    Post
      (λ p'.
        IsSoundState p_holds machine machine_fits checked_config bfs_queue p'
        × (p'.engine ≡ p_engine))
      (add_clauses machine checked_config bfs_queue
        (p_x ∷ either ∷ [])
        (new_prover machine checked_config bfs_queue p_engine))
add_clauses-IsSoundState_example =
    add_clauses-IsSoundState p_holds machine machine_fits checked_config bfs_queue
      (p_x ∷ either ∷ []) (new_prover machine checked_config bfs_queue p_engine)
      new_prover-IsSoundState_test (p_x-FollowsFrom, (either-FollowsFrom, tt))

process_new_clauses-IsSoundState_example :
    Post (Processed p_holds machine machine_fits checked_config bfs_queue) (
      process_new_clauses machine checked_config bfs_queue
        (p_x ∷ either ∷ [])
        (new_prover machine checked_config bfs_queue p_engine))
process_new_clauses-IsSoundState_example =
    process_new_clauses-IsSoundState p_holds machine machine_fits checked_config bfs_queue
      (p_x ∷ either ∷ []) (new_prover machine checked_config bfs_queue p_engine)
      new_prover-IsSoundState_test (p_x-FollowsFrom, (either-FollowsFrom, tt))

generate_new_clauses-Inferred_example : Post (InferredAll p_holds p_engine) (
    generate_new_clauses machine checked_config
      (record { store = either ∷ []; processed = 0 ∷ [] })
      p_x
      p_engine)
generate_new_clauses-Inferred_example =
    generate_new_clauses-Inferred p_holds machine machine_fits machine_walks checked_config refl
      (record { store = either ∷ []; processed = 0 ∷ [] }) p_x p_engine p_engine-IsSound
      (either-FollowsFrom, tt) p_x-FollowsFrom

-- A limit of 3 rounds, with p(X) on the queue.
abbrev limited : ProverConfig
limited = record checked_config { max_iterations = 3 }

abbrev waiting : Prover machine limited bfs_queue
waiting = record (new_prover machine limited bfs_queue p_engine) { unprocessed = p_x ∷ [] }

prove_enough_rounds_example :
    prove machine limited bfs_queue 4 0 waiting ≡ prove machine limited bfs_queue 9 0 waiting
prove_enough_rounds_example =
    prove_enough_rounds machine limited bfs_queue 3 8 0 waiting (omega arith) (omega arith)

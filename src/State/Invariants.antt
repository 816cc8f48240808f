-- ===== src/State/Invariants.antt =====
-- `assertInvariants` of src/state/invariants.ts.
pub mod Sound
use my_shtty_pi_herdr_deck.Base.{
  String, Bool, true, false, not, ◌&&◌, ◌||◌, List, [], ◌∷◌, Option, none, some, if◌then◌else◌,
  ◌==◌, ok, err, includes, is_some,
}
use my_shtty_pi_herdr_deck.Base.Dict.{Dict, lookup, values}
use my_shtty_pi_herdr_deck.State.Types.{Task, Run, OrchestrationState, run_shared_terminal}
use my_shtty_pi_herdr_deck.State.Event.{
  OrchestratorError, corrupt, invalid, Reduced, ◌>>=◌, ◌>>◌, throw_if,
}
use my_shtty_pi_herdr_deck.State.Reducer.Tasks.{nonempty}

-- The agent that a run occupies, if the run is not over and names one.
abbrev pub occupied : Run → Option String
occupied run = if run_shared_terminal run.state then none else nonempty run.agent_id

-- One round of the first loop, with the agents that are busy so far.
unfoldable pub claim_agent : List String → Option String → Reduced (List String)
claim_agent active none = ok active
claim_agent active (some agent) =
    if includes active agent
    then err (invalid "An agent has more than one nonterminal run.")
    else ok (agent ∷ active)

unfoldable pub check_runs : List String → List Run → Reduced (List String)
unfolding claim_agent
check_runs active [] = ok active
check_runs active (run ∷ runs) =
    claim_agent active (occupied run) >>= λ active'. check_runs active' runs

-- `task.currentRunId && !state.runs[task.currentRunId]`
abbrev pub dangling : Dict Run → Option String → Bool
dangling runs none = false
dangling runs (some id) = not (is_some (lookup id runs))

unfoldable pub check_tasks : Dict Run → List Task → Reduced (Unit {0})
check_tasks runs [] = ok tt
check_tasks runs (task ∷ tasks) =
    throw_if (dangling runs (nonempty task.current_run_id))
      (corrupt "Task points to a missing run.")
    >> check_tasks runs tasks

unfoldable pub assert_invariants : OrchestrationState → Reduced (Unit {0})
unfolding check_runs check_tasks
assert_invariants s = check_runs [] (values s.runs) >>= λ _. check_tasks s.runs (values s.tasks)

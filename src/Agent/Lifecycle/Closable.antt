-- ===== src/Agent/Lifecycle/Closable.antt =====
-- When `projectAgentLifecycle` of src/broker/agent-lifecycle.ts recommends to close an agent, in terms
-- of the agent's fields and of all its tasks.
use my_shtty_pi_herdr_deck.Base.{
  String, true, Option, none, some, ◌≡◌, ◌≢◌, truthy?, All, or_default, if◌then◌else◌,
}
use my_shtty_pi_herdr_deck.Base.Dict.{lookup}
use my_shtty_pi_herdr_deck.State.Types.{AgentState, TaskState, Agent, Task, Run, OrchestrationState}
use my_shtty_pi_herdr_deck.Agent.Lifecycle.{assigned_tasks, current_run, last}

-- A text that is there and not empty.
abbrev pub Present : Option String → Type 0
Present text = (s : String) × (text ≡ some s) × (s ≢ "")

pub data IsOver : TaskState → Type 0 where
  succeeded : IsOver TaskState.succeeded
  failed : IsOver TaskState.failed
  cancelled : IsOver TaskState.cancelled
  timed_out : IsOver TaskState.timed_out

-- A task that is over and whose result was collected.
pub record Delivered (t : Task) : Type 0 where
  pub over : IsOver t.state
  pub result : Present t.result_id
  pub collected : Present t.result_collected_at

-- An agent that neither works nor waits for an answer.
pub data IsResting : AgentState → Type 0 where
  idle : IsResting AgentState.idle
  stopped : IsResting AgentState.stopped
  failed_ : IsResting AgentState.failed
  orphaned : IsResting AgentState.orphaned
  replaced : IsResting AgentState.replaced
  unlisted : (name : String) → IsResting (AgentState.unlisted name)

-- The class, of its own or by the parent, lets an agent be closed.
pub data IsTemporary (class parent : Option String) : Type 0 where
  of_class :
      (name : String)
      → class ≡ some name
      → name ≢ "pinned"
      → name ≢ "retained"
      → name ≢ "reusable"
      → IsTemporary class parent
  of_parent : class ≡ none → Present parent → IsTemporary class parent

-- The work is done: the task of the agent's run, if it has one; else all its tasks, with the result
-- of the last one and of every one that has a result collected.
pub data Finished (agent : Agent) (s : OrchestrationState) : Type 0 where
  of_run :
      (r : Run) (t : Task)
      → current_run agent.current_run_id s.runs ≡ some r
      → lookup r.task_id s.tasks ≡ some t
      → Delivered t
      → Finished agent s
  of_tasks :
      (t : Task)
      → current_run agent.current_run_id s.runs ≡ none
      → last (assigned_tasks agent s) ≡ some t
      → Delivered t
      → All (λ u. IsOver u.state) (assigned_tasks agent s)
      → All (λ u. Present u.result_id → Present u.result_collected_at) (assigned_tasks agent s)
      → Finished agent s

pub record MayClose (agent : Agent) (s : OrchestrationState) : Type 0 where
  pub temporary : IsTemporary agent.lifecycle_class agent.parent_agent_id
  pub no_reuse : agent.keep_for_reuse ≢ some true
  pub resting : IsResting agent.state
  pub finished : Finished agent s

abbrev class_of : Option String → Option String → String
class_of class parent = or_default class (if truthy? parent then "temporary" else "retained")

-- ===== src/Lib.antt =====
-- The core of the orchestrator: the scheduler of src/scheduler, the event-sourced state of src/state
-- and the policies and codecs around them. A parent agent asks the broker for tasks. The broker puts them into the scheduler's
-- queue, asks the scheduler which of them may start, gives an admitted task to an agent that can be
-- reused or to a new one, and writes every change as an event to the log. The state of the
-- orchestrator is what `reduce` makes of the events, one after another; `assertInvariants` tests
-- that state.
--
-- Files:
-- - Base: names of the libraries, tests on numbers and texts, lists, results, integers, objects
--   used as maps (Dict: a list of entries in the order of insertion), the stable sort of arrays,
--   numbers as doubles hold them and the values of JSON (an event's payload).
-- - Scheduler/Types: src/scheduler/types.ts.
-- - Scheduler/Limits: clampLimits and clampEndpointLimits of src/scheduler/scheduler.ts.
-- - Scheduler/Queue: the class DeterministicScheduler of that file. The object is a record, and a
--   method that assigns to it returns the new record or the error it throws.
-- - Scheduler/Admission: its method admitReady, with the two loops as recursive functions.
-- - Scheduler/Reuse: src/scheduler/admission.ts and findReusableAgent.
-- - Scheduler/Budgets: src/scheduler/budgets.ts and src/scheduler/budget-controller.ts.
-- - Protocol/Codec: src/shared/protocol/codec.ts. A Buffer is a list of bytes; the search for the next
--   newline goes byte by byte.
-- - Herdr/Types, Herdr/Reconciler: src/herdr/reconciler.ts and the types of src/herdr/types.ts that it
--   reads.
-- - Retention: src/ops/retention-policy.ts. Times are whole milliseconds. Sizes are added and taken away
--   as doubles (Base/Double): a number of 2 ^ 53 or more is rounded to 53 significant bits. A
--   search for the distance of neighbouring doubles has fuel for 2 ^ 117; an array, with less than
--   2 ^ 32 entries of less than 2 ^ 53 bytes, stays below 2 ^ 86.
-- - Shared/Ids: src/shared/ids.ts.
-- - Deck/Selections, Deck/Relations: the lists of agents and tasks, and what is related to one
--   of them, of src/deck/selections.ts.
-- - State/Types: src/state/types.ts. State/Host: what the runtime does with texts and dates.
-- - State/Event: stored events, errors and the helpers at the top of src/state/reducer.ts.
-- - State/Reducer: emptyState and reduce of that file, with the cases of its switch in the children
--   Tasks, Agents, Runs, Results, Resources, Compact (compact.delegation_scheduled) and Metadata
--   (herdr.metadata_projected). `replay` applies the events of a log.
-- - State/Canonical: src/shared/canonical-json.ts.
-- - State/Invariants: src/state/invariants.ts. State/Consistent: the invariant of tasks and runs.
-- - Agent/Domain: src/state/agent-domain.ts. The loop up the parents counts down what the bound of 2
--   leaves, so it needs no fuel.
-- - Agent/Lifecycle: src/broker/agent-lifecycle.ts, with the progress of a task in its child Progress.
-- - Workflow/Types, Workflow/Engine: src/scheduler/workflow-engine.ts, with the types it takes from
--   src/scheduler/workflows.ts. A Map of executions is a Dict.
-- - Workflow/Validation: validateWorkflow of src/scheduler/workflows.ts. The recursive `visit` has
--   fuel for its depth: one more than the steps, since the keys on the way down are different steps.
--   The set `visiting` is the list of those keys, which the calls pass down. The correction limit
--   of a definition is an integer.
-- - Workflow/Plan: planWorkflow and aggregateResults of that file. A template is replaced character by
--   character, with the number of characters that the last match still covers.
-- - Workflow/Progress: the engine on the plan of a valid definition.
-- - Workflow/Isolation: src/broker/isolation-policy.ts.
-- - State/History: what later events may not change in a table of the state.
-- - Tests: samples and runs of the definitions on them.
--
-- Conventions. A function's name is the source's in snake case; an operation that throws returns a
-- result whose error carries the source's message or is named after it. Where the source copies the state with
-- structuredClone and assigns to fields of objects it looked up, the model writes the new record
-- back under the key the object was found at. Optional fields are Options; an optional map
-- that is absent is the empty map, as every reader of it treats both alike. Integers are the ones a
-- log can hold, written with at most 21 digits, which is the fuel of the decimal printer; -0 is 0.
-- Fields that the source casts from the payload without a test (task titles, pane ids) are taken to
-- be texts when present. Keys do not name members of Object.prototype.
--
-- Parameters. `localeCompare` is a record `Collation` with the laws of a total preorder.
-- `Number(text)`, `Date.parse`, `toISOString`, `JSON.stringify` of a text, the comparison of keys and
-- SHA-256 are the fields of a record `Host`. `JSON.stringify`, `JSON.parse` and the validation of a
-- frame are the fields of a record `Format`; the round trip of the codec assumes `IsLossless` of it:
-- a value's text is not empty, has no newline and is parsed to the value. The arithmetic of budgets
-- is a record `Numbers` of operations. `Source` gives a plan the ids that `createId` draws at that
-- time, and the text of a result. No theorem assumes more of them.
--
-- Not modelled: the events model.* of the reducer, which store what src/model-intelligence checks; the broker's request handlers, sockets, locks and processes (src/broker,
-- src/bridge), the adapters to pi and herdr (src/pi and the rest of src/herdr), the rest of the user interface (src/deck), the
-- command line (src/cli) and the file system parts of src/state, src/results and src/ops, which are
-- input and output around the core.
pub mod Agent
pub mod Base
pub mod Deck
pub mod Herdr
pub mod Protocol
pub mod Retention
pub mod Scheduler
pub mod Shared
pub mod State
pub mod Tests
pub mod Workflow

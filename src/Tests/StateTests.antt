-- ===== src/Tests/StateTests.antt =====
-- The reducer of src/state on sample events.
use my_shtty_pi_herdr_deck.Base.{◌≡◌, refl, [], ◌∷◌, true, none, some, ok, err, ◌↔◌}
use my_shtty_pi_herdr_deck.Base.Dict.{lookup, insert, values}
use my_shtty_pi_herdr_deck.Base.Int.{pos}
use my_shtty_pi_herdr_deck.Base.Json.{other, string, Fields, end, field, get}
use my_shtty_pi_herdr_deck.State.Types.{OrchestrationState}
use my_shtty_pi_herdr_deck.State.Host.{Host, to_text, to_number_or_one}
use my_shtty_pi_herdr_deck.State.Event.{
  Event, EventType, task_created, run_created, run_state_changed, Reduced, ◌>>=◌, throw_if, need,
  timeout_reason, run_state_of,
}
use my_shtty_pi_herdr_deck.State.Consistent.{IsConsistent}
use my_shtty_pi_herdr_deck.State.Invariants.{assert_invariants}
use my_shtty_pi_herdr_deck.State.Invariants.Sound.{Exclusive, assert_invariants_iff}
use my_shtty_pi_herdr_deck.State.Reducer.{empty_state, dispatch, reduce, replay}
use my_shtty_pi_herdr_deck.State.History.{Extends}
use my_shtty_pi_herdr_deck.State.Reducer.Keeps.{replay-IsConsistent}
use my_shtty_pi_herdr_deck.State.Reducer.Ended.{RunsEnd, replay-RunsEnd}
use my_shtty_pi_herdr_deck.State.Reducer.Extending.{replay-Extends}
use my_shtty_pi_herdr_deck.State.Reducer.Tasks.{reduce_task_created}
use my_shtty_pi_herdr_deck.State.Reducer.Runs.{reduce_run_created, reduce_run_progress}

abbrev pub host : Host
host = record {
  parse_number = λ s. other "NaN";
  parse_date = λ s. some (pos 0);
  to_iso = λ z. some "1970-01-01T00:00:00.000Z";
  quote = λ s. s;
  locale_le = λ a b. true;
  sha256 = λ s. "digest";
}

abbrev pub event : EventType → Fields → Event
event type payload = record {
  type = type;
  principal_id = "cli";
  task_ref = none;
  run_ref = none;
  agent_ref = none;
  result_ref = none;
  question_ref = none;
  group_ref = none;
  workflow_ref = none;
  workflow_digest_ref = none;
  payload = payload;
  seq = none;
  hash = none;
  timestamp = none;
}

abbrev make_task : Event
make_task = event task_created (
    field "id" (string "t1") (
      field "title" (string "Title")
        (field "objective" (string "Goal") (field "createdAt" (string "now") end))))

abbrev make_run : Event
make_run =
    event run_created (
      field "runId" (string "r1")
        (field "taskId" (string "t1") (field "agentId" (string "a1") end)))

abbrev finish_run : Event
finish_run =
    event run_state_changed (field "runId" (string "r1") (field "state" (string "succeeded") end))

abbrev or_empty : Reduced OrchestrationState → OrchestrationState
or_empty (ok s) = s
or_empty (err x) = empty_state

-- What a run of these events computes with.
replaying : Unit {0}
unfolding replay reduce dispatch reduce_task_created reduce_run_created reduce_run_progress ◌>>=◌
    throw_if need get lookup insert to_text to_number_or_one timeout_reason run_state_of
replaying = tt

abbrev started : OrchestrationState
started = or_empty (replay host empty_state (make_task ∷ make_run ∷ []))

replay-IsConsistent_example : IsConsistent started.tasks started.runs
unfolding replaying
replay-IsConsistent_example =
    replay-IsConsistent host empty_state (make_task ∷ make_run ∷ []) {s' = started}
      (record { tasks_ok = tt; runs_ok = tt }) refl

started_ok : IsConsistent started.tasks started.runs
unfolding replaying
started_ok =
    replay-IsConsistent host empty_state (make_task ∷ make_run ∷ []) {s' = started}
      (record { tasks_ok = tt; runs_ok = tt }) refl

assert_invariants_iff_example :
    (assert_invariants started ≡ ok tt) ↔ Exclusive (values started.runs)
unfolding replaying
assert_invariants_iff_example = assert_invariants_iff started started_ok

-- The same events, and then the end of the run.
abbrev finished : OrchestrationState
finished = or_empty (replay host started (finish_run ∷ []))

replay-Extends_example : Extends started finished
unfolding replaying
replay-Extends_example =
    replay-Extends host started (finish_run ∷ []) {s' = finished} started_ok refl

finished_ok : IsConsistent finished.tasks finished.runs
unfolding replaying
finished_ok = replay-IsConsistent host started (finish_run ∷ []) {s' = finished} started_ok refl

-- The end of a run that has ended is no error.
replay-RunsEnd_example : RunsEnd finished finished
unfolding replaying
replay-RunsEnd_example =
    replay-RunsEnd host finished (finish_run ∷ []) {s' = finished} finished_ok (refl, tt) refl

-- ===== src/State/Consistent.antt =====
-- How the tasks and the runs of the state refer to one another (src/state/reducer.ts keeps it, and
-- the second loop of src/state/invariants.ts checks a part of it).
use my_shtty_pi_herdr_deck.Base.{
  String, [], ◌∷◌, Option, none, some, ◌≡◌, sym, ◌∙◌, ap, subst, ◌==◌, eq_iff, Bool-cases, inl, inr,
}
use my_shtty_pi_herdr_deck.Base.Dict.{
  Dict, lookup, insert, lookup-insert, lookup-insert_self, Entries, Entries-insert, Entries-lookup,
}
use my_shtty_pi_herdr_deck.State.Types.{Task, Run}

-- A run that belongs to the task stands under the id.
abbrev pub Owned : Dict Run → String → String → Type 0
Owned runs id task_id = (run : Run) × (lookup id runs ≡ some run) × (run.task_id ≡ task_id)

-- The current run of a task, if it has one, exists and belongs to the task.
abbrev pub Linked : Dict Run → String → Option String → Type 0
Linked runs task_id none = Unit
Linked runs task_id (some id) = Owned runs id task_id

abbrev pub TaskOk : Dict Run → String → Task → Type 0
TaskOk runs id t = (t.id ≡ id) × Linked runs t.id t.current_run_id

pub record IsConsistent (tasks : Dict Task) (runs : Dict Run) : Type 0 where
  -- Every task stands under its own id, and its current run is a run of that task.
  pub tasks_ok : Entries (TaskOk runs) tasks
  -- Every run stands under its own id.
  pub runs_ok : Entries (λ id r. r.id ≡ id) runs

Owned-insert :
    (runs : Dict Run) (k : String) (new : Run) (id task_id : String)
    → ((old : Run) → lookup k runs ≡ some old → new.task_id ≡ old.task_id)
    → Owned runs id task_id
    → Owned (insert k new runs) id task_id
Owned-insert runs k new id task_id same (run, at, of) = elim (Bool-cases (k == id)) [
  | inl e ↦
      let here : k ≡ id = (eq_iff k id).0 e in
      let old : lookup k runs ≡ some run = ap (λ i. lookup i runs) here ∙ at in
      (new, lookup-insert k id new runs ∙ rw e, same run old ∙ of)
  | inr e ↦ (run, lookup-insert k id new runs ∙ (rw e at), of)
]

Linked-insert :
    (runs : Dict Run) (k : String) (new : Run) (task_id : String) (current : Option String)
    → ((old : Run) → lookup k runs ≡ some old → new.task_id ≡ old.task_id)
    → Linked runs task_id current
    → Linked (insert k new runs) task_id current
Linked-insert runs k new task_id none same l = tt
Linked-insert runs k new task_id (some id) same l = Owned-insert runs k new id task_id same l

Entries-map {ℓ κ μ} :
    {V : Type ℓ} (P : String → V → Type κ) (Q : String → V → Type μ) (m : Dict V)
    → ((k : String) (v : V) → P k v → Q k v)
    → Entries P m
    → Entries Q m
Entries-map P Q [] f h = tt
Entries-map P Q ((k, v) ∷ m) f h = (f k v h.0, Entries-map P Q m f h.1)

tasks_ok-put_run :
    (tasks : Dict Task) (runs : Dict Run) (k : String) (new : Run)
    → ((old : Run) → lookup k runs ≡ some old → new.task_id ≡ old.task_id)
    → Entries (TaskOk runs) tasks
    → Entries (TaskOk (insert k new runs)) tasks
tasks_ok-put_run tasks runs k new same h =
    Entries-map (TaskOk runs) (TaskOk (insert k new runs)) tasks
      (λ id t ok. (ok.0, Linked-insert runs k new t.id t.current_run_id same ok.1)) h

module _ {tasks : Dict Task} {runs : Dict Run} (c : IsConsistent tasks runs) where
  -- A task is written again with its id and its current run.
  pub put_task :
      (id : String) {old : Task} (new : Task)
      → lookup id tasks ≡ some old
      → new.id ≡ old.id
      → new.current_run_id ≡ old.current_run_id
      → IsConsistent (insert id new tasks) runs
  put_task id {old} new at same_id same_run = record {
    tasks_ok =
        let ok = Entries-lookup (TaskOk runs) id tasks c.tasks_ok at in
        Entries-insert (TaskOk runs) id new tasks c.tasks_ok
          (same_id ∙ ok.0, rw (same_id, same_run) ok.1);
    runs_ok = c.runs_ok;
  }

  -- A task with no run is added.
  pub add_task :
      (id : String) (new : Task)
      → new.id ≡ id
      → new.current_run_id ≡ none
      → IsConsistent (insert id new tasks) runs
  add_task id new at idle = record {
    tasks_ok = Entries-insert (TaskOk runs) id new tasks c.tasks_ok (at, rw idle tt);
    runs_ok = c.runs_ok;
  }

  -- A run is written again with its id and its task.
  pub put_run :
      (id : String) {old : Run} (new : Run)
      → lookup id runs ≡ some old
      → new.id ≡ old.id
      → new.task_id ≡ old.task_id
      → IsConsistent tasks (insert id new runs)
  put_run id {old} new at same_id same_task = record {
    tasks_ok =
        tasks_ok-put_run tasks runs id new
          (λ other there.
            let one : old ≡ other = cc (at, there) in same_task ∙ ap (λ r. r.task_id) one)
          c.tasks_ok;
    runs_ok =
        Entries-insert (λ i r. r.id ≡ i) id new runs c.runs_ok
          (same_id ∙ Entries-lookup (λ i r. r.id ≡ i) id runs c.runs_ok at);
  }

  -- A new run starts as the current run of its task.
  pub start_run :
      (id : String) (run : Run) (task task' : Task)
      → lookup id runs ≡ none
      → run.id ≡ id
      → run.task_id ≡ task.id
      → task'.id ≡ task.id
      → task'.current_run_id ≡ some id
      → IsConsistent (insert task.id task' tasks) (insert id run runs)
  start_run id run task task' fresh at of same current = record {
    tasks_ok =
        Entries-insert (TaskOk (insert id run runs)) task.id task' tasks
          (tasks_ok-put_run tasks runs id run (λ old there. cc) c.tasks_ok)
          (same, rw current (run, lookup-insert_self id run runs, of ∙ sym same));
    runs_ok = Entries-insert (λ i r. r.id ≡ i) id run runs c.runs_ok at;
  }

  -- The key of a task and the task's own id are one.
  pub task_key : (id : String) {t : Task} → lookup id tasks ≡ some t → t.id ≡ id
  task_key id at = (Entries-lookup (TaskOk runs) id tasks c.tasks_ok at).0

  pub run_key : (id : String) {r : Run} → lookup id runs ≡ some r → r.id ≡ id
  run_key id at = Entries-lookup (λ i r. r.id ≡ i) id runs c.runs_ok at

module _ {tasks : Dict Task} {runs : Dict Run} (c : IsConsistent tasks runs) where
  -- The same writes, under the id that the entry itself carries.
  pub put_own_task :
      (id : String) {old : Task} (new : Task)
      → lookup id tasks ≡ some old
      → new.id ≡ old.id
      → new.current_run_id ≡ old.current_run_id
      → IsConsistent (insert old.id new tasks) runs
  put_own_task id new at same_id same_run =
      subst (λ k. IsConsistent (insert k new tasks) runs) (sym (task_key c id at))
        (put_task c id new at same_id same_run)

  pub put_own_run :
      (id : String) {old : Run} (new : Run)
      → lookup id runs ≡ some old
      → new.id ≡ old.id
      → new.task_id ≡ old.task_id
      → IsConsistent tasks (insert old.id new runs)
  put_own_run id new at same_id same_task =
      subst (λ k. IsConsistent tasks (insert k new runs)) (sym (run_key c id at))
        (put_run c id new at same_id same_task)

-- ===== src/State/Reducer/Compact/Scheduled.antt =====
-- What `compact.delegation_scheduled` of src/state/reducer.ts makes of a state.
use my_shtty_pi_herdr_deck.Base.{
  String, Bool, true, false, not, ◌||◌, List, [], ◌∷◌, none, some, ◌≡◌, refl, ap, ◌∙◌, arith, inl,
  inr, ◌==◌, ok, All, All-map, any, every, includes, or_default, is_some, Bool-cases, Option-cases,
  eq_iff,
}
use my_shtty_pi_herdr_deck.Base.Dict.{Dict, lookup, insert, lookup-insert, lookup-insert_self}
use my_shtty_pi_herdr_deck.Base.Json.{Value, Items, nil, cons}
use my_shtty_pi_herdr_deck.State.Host.{Host}
use my_shtty_pi_herdr_deck.State.Types.{
  TaskState, Task, Workflow, WorkflowState, OrchestrationState,
}
use my_shtty_pi_herdr_deck.State.Event.{Event, text_at}
use my_shtty_pi_herdr_deck.State.Reducer.OnOk.{OnOk, OnOk-elim, on_ok, on_need, on_bind, on_throw}
use my_shtty_pi_herdr_deck.State.Reducer.Compact.Definition.{scheduled_task}
use my_shtty_pi_herdr_deck.State.Reducer.Compact.{
  Schedule, schedule, has_duplicates, has_stray, task_ids, reduce_compact_delegation_scheduled,
}

-- A queued task of the workflow, without a run, under an id that was free.
pub record IsNew (workflow : String) (tasks : Dict Task) (task : Task) : Type 0 where
  pub free : lookup task.id tasks ≡ none
  pub idle : task.current_run_id ≡ none
  pub queued : task.state ≡ TaskState.queued
  pub member : task.workflow_id ≡ some workflow

or_false : (a b : Bool) → a || b ≡ false → (a ≡ false) × (b ≡ false)
or_false true b h = cc h
or_false false b h = (refl, h)

free_if :
    {V : Type 0} (table : Dict V) (id : String)
    → is_some (lookup id table) ≡ false
    → lookup id table ≡ none
free_if table id h = elim (Option-cases (lookup id table)) [
  | inl e ↦ e
  | inr (t, e) ↦ absurd (cc (rw e at h))
]

module _ (host : Host) (workflow parent : String) where
  scheduled_task-IsNew :
      (tasks : Dict Task) (definition response : Value)
      → OnOk (IsNew workflow tasks) (scheduled_task host workflow parent tasks definition response)
  unfolding scheduled_task
  scheduled_task-IsNew tasks definition response = on_bind _ _ λ fields _. on_need _ _ _ λ id _.
      on_throw _ _ _ λ _. on_throw _ _ _ λ free. on_throw _ _ _ λ _. on_need _ _ _ λ title _.
        on_need _ _ _ λ objective _. on_need _ _ _ λ created _. on_need _ _ _ λ profile _.
          on_throw _ _ _ λ _. on_need _ _ _ λ constraints _. on_need _ _ _ λ dependencies _.
            on_need _ _ _ λ project _. on_throw _ _ _ λ _. on_need _ _ _ λ timeout _.
              on_throw _ _ _ λ _.
                on_ok (record {
                  free = free_if tasks id free;
                  idle = refl;
                  queued = refl;
                  member = refl;
                })

  -- What every new task keeps true of the tasks, the loop keeps true.
  schedule-OnOk {κ} :
      (P : Dict Task → Type κ)
      → ((tasks : Dict Task) (task : Task)
          → P tasks
          → IsNew workflow tasks task
          → P (insert task.id task tasks))
      → (tasks : Dict Task) (definitions responses : Items) → P tasks
      → OnOk (λ r. P r.tasks) (schedule host workflow parent tasks definitions responses)
  unfolding schedule
  schedule-OnOk P step tasks nil responses p = on_ok p
  schedule-OnOk P step tasks (cons d ds) nil p = on_ok p
  schedule-OnOk P step tasks (cons d ds) (cons r rs) p = on_bind _ _ λ task made.
      on_bind _ _ λ rest ran. on_ok (
        OnOk-elim
          (schedule-OnOk P step (insert task.id task tasks) ds rs
            (step tasks task p (OnOk-elim (scheduled_task-IsNew tasks d r) made)))
          ran)

  -- The tasks that the loop made are stored, and were not there before.
  abbrev Stored : Dict Task → Schedule → Type 0
  Stored tasks r =
      ((id : String) (task : Task) → lookup id tasks ≡ some task → lookup id r.tasks ≡ some task)
      × All (λ task. IsNew workflow tasks task × (lookup task.id r.tasks ≡ some task)) r.made

  still_free :
      (tasks : Dict Task) (task : Task) (id : String)
      → lookup id (insert task.id task tasks) ≡ none
      → lookup id tasks ≡ none
  still_free tasks task id h = ground (arith, h, lookup-insert task.id id task tasks)

  still_there :
      (tasks : Dict Task) (task old : Task) (id : String)
      → lookup task.id tasks ≡ none
      → lookup id tasks ≡ some old
      → lookup id (insert task.id task tasks) ≡ some old
  still_there tasks task old id free there = elim (Bool-cases (task.id == id)) [
    | inl e ↦
        let same : task.id ≡ id = (eq_iff task.id id).0 e in
        absurd (cc (free, there, ap (λ k. lookup k tasks) same))
    | inr e ↦ lookup-insert task.id id task tasks ∙ (rw e there)
  ]

  schedule-Stored :
      (tasks : Dict Task) (definitions responses : Items)
      → OnOk (Stored tasks) (schedule host workflow parent tasks definitions responses)
  unfolding schedule
  schedule-Stored tasks nil responses = on_ok (λ id task at. at, tt)
  schedule-Stored tasks (cons d ds) nil = on_ok (λ id task at. at, tt)
  schedule-Stored tasks (cons d ds) (cons r rs) = on_bind _ _ λ task made. on_bind _ _ λ rest ran.
      let new = OnOk-elim (scheduled_task-IsNew tasks d r) made in
      let stored = OnOk-elim (schedule-Stored (insert task.id task tasks) ds rs) ran in
      on_ok (
        λ id old at. stored.0 id old (still_there tasks task old id new.free at),
        (
          (new, stored.0 task.id task (lookup-insert_self task.id task tasks)),
          All-map
              (λ t.
                IsNew workflow (insert task.id task tasks) t × (lookup t.id rest.tasks ≡ some t))
              (λ t. IsNew workflow tasks t × (lookup t.id rest.tasks ≡ some t)) rest.made
              (λ t both. (
                record {
                  free = still_free tasks task t.id both.0.free;
                  idle = both.0.idle;
                  queued = both.0.queued;
                  member = both.0.member;
                },
                both.1,
              ))
              stored.1,
        ),
      )

-- The event changes no run, question or agent, and the tasks only as the loop does.
pub compact-OnOk {κ} :
    (host : Host) (s : OrchestrationState) (e : Event) (P : Dict Task → Type κ)
    → ((workflow : String) (tasks : Dict Task) (task : Task)
        → P tasks
        → IsNew workflow tasks task
        → P (insert task.id task tasks))
    → P s.tasks
    → OnOk
        (λ s'.
          P s'.tasks
          × (s'.runs ≡ s.runs)
          × (s'.questions ≡ s.questions)
          × (s'.herdr_metadata ≡ s.herdr_metadata))
        (reduce_compact_delegation_scheduled host s e)
unfolding reduce_compact_delegation_scheduled
compact-OnOk host s e P step p = on_need _ _ _ λ workflow _. on_throw _ _ _ λ _. on_throw _ _ _ λ _.
    on_need _ _ _ λ parent _. on_throw _ _ _ λ _. on_need _ _ _ λ key _. on_need _ _ _ λ hash _.
      on_throw _ _ _ λ _. on_need _ _ _ λ definitions _. on_throw _ _ _ λ _.
        on_need _ _ _ λ response _. on_throw _ _ _ λ _. on_need _ _ _ λ replies _.
          on_throw _ _ _ λ _. on_bind _ _ λ scheduled ran. on_throw _ _ _ λ _. on_ok (
            OnOk-elim
                (schedule-OnOk host workflow parent P (step workflow) s.tasks definitions replies p)
                ran,
            refl,
            refl,
            refl,
          )

-- The task of an id: new, stored, queued, without a run, of the workflow, and dependent only on
-- tasks of the list.
abbrev pub IsDelegated : Dict Task → Dict Task → String → List String → String → Type 0
IsDelegated before after workflow ids id =
    (task : Task) × (lookup id after ≡ some task)
    × IsNew workflow before task
    × (every (includes ids) (or_default task.dependencies []) ≡ true)

-- The workflow of the payload is new, and its tasks are distinct and as delegated.
abbrev pub IsScheduled : OrchestrationState → Event → OrchestrationState → Type 0
IsScheduled s e s' =
    (workflow : Workflow) × (text_at "workflowId" e ≡ some workflow.id)
    × (lookup workflow.id s.workflows ≡ none)
    × (lookup workflow.id s'.workflows ≡ some workflow)
    × (has_duplicates workflow.task_ids ≡ false)
    × All (IsDelegated s.tasks s'.tasks workflow.id workflow.task_ids) workflow.task_ids

-- If the tasks of a list are stored and none of them strays, then their ids are as delegated.
delegated :
    (before after : Dict Task) (workflow : String) (ids : List String) (made : List Task)
    → All (λ task. IsNew workflow before task × (lookup task.id after ≡ some task)) made
    → any (λ task. not (every (includes ids) (or_default task.dependencies []))) made ≡ false
    → All (IsDelegated before after workflow ids) (task_ids made)
delegated before after workflow ids [] h none_stray = tt
delegated before after workflow ids (task ∷ made) h none_stray =
    elim (Bool-cases (every (includes ids) (or_default task.dependencies []))) [
      | inl e ↦ (
        (task, h.0.1, h.0.0, e),
        delegated before after workflow ids made h.1 (rw e at none_stray),
      )
      | inr e ↦ absurd (cc (rw e at none_stray))
    ]

OnOk-IsScheduled :
    (host : Host) (s : OrchestrationState) (e : Event)
    → OnOk (IsScheduled s e) (reduce_compact_delegation_scheduled host s e)
unfolding reduce_compact_delegation_scheduled
OnOk-IsScheduled host s e = on_need _ _ _ λ workflow named. on_throw _ _ _ λ _.
    on_throw _ _ _ λ free. on_need _ _ _ λ parent _. on_throw _ _ _ λ _. on_need _ _ _ λ key _.
      on_need _ _ _ λ hash _. on_throw _ _ _ λ _. on_need _ _ _ λ definitions _. on_throw _ _ _ λ _.
        on_need _ _ _ λ response _. on_throw _ _ _ λ _. on_need _ _ _ λ replies _.
          on_throw _ _ _ λ _. on_bind _ _ λ scheduled ran. on_throw _ _ _ λ correlated.
            let stored =
              OnOk-elim (schedule-Stored host workflow parent s.tasks definitions replies) ran in
            let apart =
              or_false (has_duplicates (task_ids scheduled.made)) (has_stray scheduled.made)
                correlated in
            on_ok (
              record {
                id = workflow;
                state = WorkflowState.created;
                task_ids = task_ids scheduled.made;
              },
              named,
              free_if s.workflows workflow free,
              lookup-insert_self workflow _ s.workflows,
              apart.0,
              delegated s.tasks scheduled.tasks workflow (task_ids scheduled.made) scheduled.made
                  stored.1 apart.1,
            )

-- A delegation that is accepted makes the workflow of its payload, under an id that was free, with
-- a list of distinct tasks. Each of them is new, queued, without a run and of that workflow, it is
-- stored under its id, and it depends only on tasks of the same list.
pub compact-IsScheduled :
    (host : Host) (s : OrchestrationState) (e : Event) {s' : OrchestrationState}
    → reduce_compact_delegation_scheduled host s e ≡ ok s'
    → IsScheduled s e s'
compact-IsScheduled host s e h = OnOk-elim (OnOk-IsScheduled host s e) h

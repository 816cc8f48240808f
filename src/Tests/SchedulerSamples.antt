-- ===== src/Tests/SchedulerSamples.antt =====
-- Sample tasks, limits and candidates for src/scheduler.
use my_shtty_pi_herdr_deck.Base.{
  String, ◌≡◌, Bool, true, false, List, [], ◌∷◌, none, some, arith, length, leb,
}
use my_shtty_pi_herdr_deck.Base.Dict.{Dict}
use my_shtty_pi_herdr_deck.Base.Text.{codes}
use my_shtty_pi_herdr_deck.Scheduler.Types.{
  State, SchedulerTask, Priority, low, normal, high, Requirement, Dependency, ReuseCandidate,
  ReuseRequest, default_scheduler_limits,
}
use my_shtty_pi_herdr_deck.Scheduler.Queue.{Scheduler}
use my_shtty_pi_herdr_deck.Scheduler.Admission.{Collation}

unfoldable pub shorter : String → String → Bool
shorter a b = leb (length (codes a)) (length (codes b))

pub shorter_total : (a b : String) → shorter a b ≡ false → shorter b a ≡ true
unfolding shorter
shorter_total a b h = ground arith

pub shorter_trans : (a b c : String) → shorter a b ≡ true → shorter b c ≡ true → shorter a c ≡ true
unfolding shorter
shorter_trans a b c h k = ground arith

-- A collation by length alone: it is total and transitive.
unfoldable pub by_length : Collation
unfolding shorter
by_length = record { le = shorter; total = shorter_total; trans = shorter_trans }

abbrev pub sample_task : String → String → State → Priority → List Dependency → SchedulerTask
sample_task id parent state priority dependencies = record {
  id = id;
  parent_agent_id = parent;
  profile_id = "scout";
  priority = priority;
  queued_at = 5;
  depth = 1;
  dependencies = dependencies;
  state = state;
  endpoint_id = none;
  project_key = none;
  worktree_key = none;
  allow_reuse = none;
}

abbrev pub after_a : List Dependency
after_a = record { task_id = "a"; requirement = Requirement.succeeded } ∷ []

-- One task is done, one runs and three wait, of which the last depends on the one that runs.
abbrev pub sample_tasks : Dict SchedulerTask
sample_tasks =
    ("a", sample_task "a" "p" State.succeeded normal [])
    ∷ ("bb", sample_task "bb" "p" State.running normal [])
    ∷ ("ccc", sample_task "ccc" "p" State.queued low after_a)
    ∷ ("dddd", sample_task "dddd" "q" State.queued high [])
    ∷ (
      "eeeee",
      sample_task "eeeee" "q" State.queued normal
          (record { task_id = "bb"; requirement = Requirement.terminal } ∷ []),
    )
    ∷ []

abbrev pub sample : Scheduler
sample = record {
  limits = default_scheduler_limits;
  endpoint_limits = ("derived-v1-legacy", 2) ∷ [];
  tasks = sample_tasks;
  provisioning = 0;
}

-- The same with room for one task at a time, globally or for each parent.
abbrev pub narrow : Scheduler
narrow = record sample { limits = record default_scheduler_limits { max_active_agents = 1 } }

abbrev pub strict : Scheduler
strict = record sample { limits = record default_scheduler_limits { max_active_per_parent = 1 } }

abbrev pub request : ReuseRequest
request = record {
  profile_id = "scout";
  project_key = some "repo";
  worktree_key = none;
  trust_key = "t";
  tool_policy_hash = "h";
  model_policy_hash = "m";
}

abbrev pub candidate : String → Bool → ReuseCandidate
candidate id idle = record {
  agent_id = id;
  profile_id = "scout";
  project_key = some "repo";
  worktree_key = none;
  trust_key = "t";
  tool_policy_hash = "h";
  model_policy_hash = "m";
  cleanup_pending = false;
  idle = idle;
}

abbrev pub candidates : List ReuseCandidate
candidates = candidate "xyz" true ∷ candidate "x" false ∷ candidate "xy" true ∷ []

-- ===== src/State/Reducer/Compact/Definition.antt =====
-- A task definition of `compact.delegation_scheduled` in `reduce` in src/state/reducer.ts.
use my_shtty_pi_herdr_deck.Base.{
  ℕ, suc, String, Bool, true, false, not, ◌&&◌, ◌||◌, List, [], ◌∷◌, Option, none, some,
  if◌then◌else◌, leb, eqb, ok, err, length, is_some, includes, every,
}
use my_shtty_pi_herdr_deck.Base.Text.{codes, utf16_length, utf8_length, is_digest, is_prefixed_id}
use my_shtty_pi_herdr_deck.Base.Dict.{Dict, lookup}
use my_shtty_pi_herdr_deck.Base.Json.{
  Value, undefined, null, object, Items, nil, cons, Fields, end, field, get, as_text, as_record,
  as_array, is_undefined, is_text, texts, all_texts,
}
use my_shtty_pi_herdr_deck.State.Host.{Host, to_text}
use my_shtty_pi_herdr_deck.State.Types.{Task}
use my_shtty_pi_herdr_deck.State.Event.{
  ◌>>=◌, ◌>>◌, throw_if, need, OrchestratorError, corrupt, type_error, Reduced, key_count, has_own,
  valid_endpoint_id,
}
use my_shtty_pi_herdr_deck.State.Reducer.Tasks.{new_task}

abbrev pub bad_definition : OrchestratorError
bad_definition = corrupt "Compact delegation task definition is invalid."

-- `[...keys].every((key) => Object.hasOwn(fields, key))`
abbrev pub has_all : List String → Fields → Bool
has_all keys fields = every (λ key. has_own key fields) keys

-- `Object.keys(fields).every((key) => keys.includes(key))`
unfoldable pub only_keys : List String → Fields → Bool
only_keys keys end = true
only_keys keys (field key value rest) = includes keys key && only_keys keys rest

-- A text of a length (`text.length`) within bounds.
abbrev pub sized : ℕ → ℕ → Option String → Option String
sized low high none = none
sized low high (some t) =
    if leb low (utf16_length t) && leb (utf16_length t) high then some t else none

abbrev pub digest : Option String → Option String
digest none = none
digest (some t) = if is_digest t then some t else none

-- A text that `Date.parse` reads.
abbrev pub dated : Host → Option String → Option String
dated host none = none
dated host (some t) = if is_some (host.parse_date t) then some t else none

abbrev pub task_id_text : Option String → Option String
task_id_text none = none
task_id_text (some t) = if is_prefixed_id (codes "tsk_") (codes t) then some t else none

abbrev pub objective_text : Option String → Option String
objective_text none = none
objective_text (some t) =
    if leb 1 (utf16_length t) && leb (utf8_length t) 65_536 then some t else none

abbrev pub item_count : Items → ℕ
item_count nil = 0
item_count (cons x xs) = suc (item_count xs)

-- An array of texts only.
abbrev pub text_items : Option Items → Option (List String)
text_items none = none
text_items (some xs) = if all_texts xs then some (texts xs) else none

abbrev pub limited : Option (List String) → Option (List String)
limited none = none
limited (some ts) =
    if leb (length ts) 64 && every (λ t. leb (utf8_length t) 8_192) ts then some ts else none

-- The constraints of a definition that may be stored; without the field there are none.
abbrev pub constraints_of : Value → Option (List String)
constraints_of v = if is_undefined v then some [] else limited (text_items (as_array v))

-- `definitions[index].taskId` throws on `null`; another value that is not an object has no `taskId`.
unfoldable pub definition_fields : Value → Reduced Fields
definition_fields null = err (record { code = type_error; message = "Cannot read properties." })
definition_fields undefined =
    err (record { code = type_error; message = "Cannot read properties." })
definition_fields (object fields) = ok fields
definition_fields _ = err bad_definition

abbrev pub required_keys : List String
required_keys =
    "taskId" ∷ "title" ∷ "objective" ∷ "createdAt" ∷ "parentAgentId" ∷ "workflowId" ∷ "profileId"
    ∷ "dependencies" ∷ "project" ∷ "timeoutAt" ∷ []

abbrev pub allowed_keys : List String
allowed_keys =
    "taskId" ∷ "title" ∷ "objective" ∷ "createdAt" ∷ "parentAgentId" ∷ "workflowId" ∷ "profileId"
    ∷ "endpointId" ∷ "constraints" ∷ "dependencies" ∷ "project" ∷ "timeoutAt" ∷ []

abbrev pub project_keys : List String
project_keys =
    "cwd" ∷ "workspaceId" ∷ "isolation" ∷ "requestedSpawnPolicy" ∷ "effectiveSpawnPolicy"
    ∷ "modelPolicyHash" ∷ "compact" ∷ []

abbrev pub exact_definition : Fields → Bool
exact_definition fields =
    leb 10 (key_count fields)
    && leb (key_count fields) 12
    && has_all required_keys fields
    && only_keys allowed_keys fields

abbrev pub good_compact : Option Fields → Bool
good_compact none = false
good_compact (some compact) =
    eqb (key_count compact) 2
    && has_all ("workflowDigest" ∷ "transcriptPolicy" ∷ []) compact
    && is_digest (to_text (get "workflowDigest" compact))
    && is_text "retain-tab" (get "transcriptPolicy" compact)

abbrev pub good_project : Fields → Bool
good_project project =
    (eqb (key_count project) 7
      || (eqb (key_count project) 8 && has_own "advisoryModelReceipt" project))
    && has_all project_keys project
    && is_some (as_text (get "cwd" project))
    && is_some (as_text (get "workspaceId" project))
    && good_compact (as_record (get "compact" project))

-- The entry of the response for a task.
abbrev pub good_response : String → Option Fields → Bool
good_response id none = false
good_response id (some response) =
    eqb (key_count response) 3
    && has_all ("key" ∷ "taskId" ∷ "state" ∷ []) response
    && is_text id (get "taskId" response)
    && is_text "queued" (get "state" response)
    && is_some (as_text (get "key" response))

-- A round of the loop: the task of a definition. All failed tests throw the same error.
unfoldable pub scheduled_task : Host → String → String → Dict Task → Value → Value → Reduced Task
scheduled_task host workflow parent tasks definition response = do
  fields ← definition_fields definition
  id ← need (task_id_text (as_text (get "taskId" fields))) bad_definition
  throw_if (not (exact_definition fields)) bad_definition
  throw_if (is_some (lookup id tasks)) bad_definition
  throw_if
      (not (is_text workflow (get "workflowId" fields))
        || not (is_text parent (get "parentAgentId" fields)))
      bad_definition
  title ← need (sized 1 256 (as_text (get "title" fields))) bad_definition
  objective ← need (objective_text (as_text (get "objective" fields))) bad_definition
  created_at ← need (dated host (as_text (get "createdAt" fields))) bad_definition
  profile_id ← need (as_text (get "profileId" fields)) bad_definition
  throw_if
      (not (is_undefined (get "endpointId" fields))
        && not (is_some (valid_endpoint_id (get "endpointId" fields))))
      bad_definition
  constraints ← need (constraints_of (get "constraints" fields)) bad_definition
  dependencies ← need (text_items (as_array (get "dependencies" fields))) bad_definition
  project ← need (as_record (get "project" fields)) bad_definition
  throw_if (not (good_project project)) bad_definition
  timeout_at ← need (dated host (as_text (get "timeoutAt" fields))) bad_definition
  throw_if (not (good_response id (as_record response))) bad_definition
  ok (record (new_task id title objective created_at) {
    parent_agent_id = some parent;
    workflow_id = some workflow;
    profile_id = some profile_id;
    endpoint_id = valid_endpoint_id (get "endpointId" fields);
    constraints = some constraints;
    dependencies = some dependencies;
    timeout_at = some timeout_at;
    project = some project;
    run_ids = some [];
  })

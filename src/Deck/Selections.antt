-- ===== src/Deck/Selections.antt =====
-- The selections of src/deck/selections.ts: the list of agents in pages, and the list of tasks.
-- Numbers of pages and steps are whole.
pub mod Moving
use my_shtty_pi_herdr_deck.Base.{
  ℕ, zero, suc, ◌+◌, ◌-◌, ◌*◌, ◌/◌, max, min, String, Bool, true, false, not, ◌&&◌, ◌||◌, List, [],
  ◌∷◌, Option, none, some, if◌then◌else◌, ◌==◌, filter, find, length, or_default,
}
use my_shtty_pi_herdr_deck.Base.Int.{ℤ, pos, negsuc, pos_part, ◌+ℤ◌}
use my_shtty_pi_herdr_deck.Base.Sort.{sort}
use my_shtty_pi_herdr_deck.Scheduler.Admission.{Collation}
use my_shtty_pi_herdr_deck.State.Types.{AgentState, Agent, Task, task_terminal}
use my_shtty_pi_herdr_deck.State.Reducer.Tasks.{nonempty}
use my_shtty_pi_herdr_deck.Agent.Lifecycle.{or_else}
use my_shtty_pi_herdr_deck.Retention.Plan.{drop}

-- `list[n]`
abbrev pub nth {ℓ} : {A : Type ℓ} → ℕ → List A → Option A
nth n [] = none
nth zero (x ∷ xs) = some x
nth (suc n) (x ∷ xs) = nth n xs

-- `list.slice(0, n)`
abbrev pub take {ℓ} : {A : Type ℓ} → ℕ → List A → List A
take zero xs = []
take (suc n) [] = []
take (suc n) (x ∷ xs) = x ∷ take n xs

module _ {A : Type 0} (id : A → String) where
  unfoldable pub sorted_by_id : Collation → List A → List A
  sorted_by_id c items = sort (λ a b. c.le (id a) (id b)) items

  -- The item of an id that is not empty.
  abbrev pub find_id : List A → Option String → Option A
  find_id items none = none
  find_id items (some selected) = find (λ item. id item == selected) items

  unfoldable pub effective_ordered_selection : List A → Option String → Option A
  effective_ordered_selection items selected =
      or_else (find_id items (nonempty selected)) (nth 0 items)

  unfoldable pub effective_selection : Collation → List A → Option String → Option A
  unfolding sorted_by_id effective_ordered_selection
  effective_selection c items selected = effective_ordered_selection (sorted_by_id c items) selected

  -- `list.findIndex`, with `none` for -1.
  abbrev pub index_of : List A → String → Option ℕ
  index_of [] sought = none
  index_of (x ∷ xs) sought = if id x == sought then some 0 else next (index_of xs sought)
    where
      next : Option ℕ → Option ℕ
      next none = none
      next (some n) = some (suc n)

pub data AgentListFilter : Type 0 where
  active idle history : AgentListFilter

-- `active`
abbrev pub is_active : AgentState → Bool
is_active AgentState.provisioning = true
is_active AgentState.starting = true
is_active AgentState.working = true
is_active AgentState.blocked = true
is_active AgentState.stopping = true
is_active _ = false

abbrev pub is_idle : AgentState → Bool
is_idle AgentState.idle = true
is_idle _ = false

abbrev pub passes : AgentListFilter → Agent → Bool
passes active agent = is_active agent.state
passes idle agent = is_idle agent.state
passes history agent = not (is_active agent.state) && not (is_idle agent.state)

pub record AgentListPresentation : Type 0 where
  pub matching : List Agent
  pub matching_count : ℕ
  pub page_count : ℕ
  pub safe_page : ℕ
  pub visible : List Agent
  pub selected : Option Agent
  pub selected_index : Option ℕ

abbrev pub matching_agents : Collation → AgentListFilter → List Agent → List Agent
matching_agents c shown agents = sort (λ a b. c.le b.id a.id) (filter (passes shown) agents)

-- `Math.max(1, Math.ceil(count / size))`
abbrev pub page_count_of : ℕ → ℕ → ℕ
page_count_of count size = max 1 ((count + (size - 1)) / size)

abbrev pub index_of_selected : List Agent → Option Agent → Option ℕ
index_of_selected matching none = none
index_of_selected matching (some agent) = index_of (λ a. a.id) matching agent.id

-- The presentation of the agents that match.
unfoldable pub present : List Agent → ℤ → Option String → ℕ → AgentListPresentation
unfolding effective_ordered_selection
present matching requested selected_id size =
    let pages = page_count_of (length matching) size in
    let page = min (pos_part requested) (pages - 1) in
    let visible = take size (drop (page * size) matching) in
    let selected = effective_ordered_selection (λ a. a.id) visible selected_id in
    record {
      matching = matching;
      matching_count = length matching;
      page_count = pages;
      safe_page = page;
      visible = visible;
      selected = selected;
      selected_index = index_of_selected matching selected;
    }

unfoldable pub select_agent_list_presentation :
    Collation → List Agent → AgentListFilter → ℤ → Option String → ℕ → AgentListPresentation
unfolding present
select_agent_list_presentation c agents shown requested selected_id size =
    present (matching_agents c shown agents) requested selected_id size

abbrev pub id_of : Option Agent → Option String
id_of none = none
id_of (some agent) = some agent.id

-- `Math.max(0, Math.min(length - 1, current + delta))`, for a list that is not empty.
abbrev pub moved_index : AgentListPresentation → ℤ → ℕ
moved_index p delta =
    min (length p.matching - 1) (pos_part (pos (or_default p.selected_index 0) +ℤ delta))

-- The id of the agent that is selected next, if any, and its page.
unfoldable pub move_agent_list_selection : AgentListPresentation → ℤ → ℕ → Option String × ℕ
move_agent_list_selection p delta size = moved p.matching
  where
    moved : List Agent → Option String × ℕ
    moved [] = (none, 0)
    moved (x ∷ xs) = (id_of (nth (moved_index p delta) p.matching), moved_index p delta / size)

pub record TaskRowPresentation : Type 0 where
  pub current : List Task
  pub history : List Task
  pub visible_current : List Task
  pub visible_history : List Task

unfoldable pub select_task_row_presentation : Collation → List Task → TaskRowPresentation
unfolding sorted_by_id
select_task_row_presentation c items =
    let tasks = sorted_by_id (λ t. t.id) c items in
    let current = filter (λ t. not (task_terminal t.state)) tasks in
    let past = filter (λ t. task_terminal t.state) tasks in
    record {
      current = current;
      history = past;
      visible_current = take 10 current;
      visible_history = take 8 past;
    }

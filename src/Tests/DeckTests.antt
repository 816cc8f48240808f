-- ===== src/Tests/DeckTests.antt =====
-- The list of agents of src/deck/selections.ts, with fourteen agents in two pages.
use my_shtty_pi_herdr_deck.Base.{String, List, [], ◌∷◌, some, none, ◌≡◌, refl, arith}
use my_shtty_pi_herdr_deck.Base.Sort.{sort}
use my_shtty_pi_herdr_deck.Base.Int.{pos, ◌+ℤ◌}
use my_shtty_pi_herdr_deck.State.Types.{Agent}
use my_shtty_pi_herdr_deck.Deck.Selections.{
  nth, AgentListPresentation, present, id_of, moved_index, move_agent_list_selection,
  effective_ordered_selection,
}
use my_shtty_pi_herdr_deck.Deck.Selections.Moving.{present-move}
use my_shtty_pi_herdr_deck.Deck.Selections.{sorted_by_id}
use my_shtty_pi_herdr_deck.Deck.Relations.{
  DeckResult, accepted, DeckState, select_agent_inspector_relation,
}
use my_shtty_pi_herdr_deck.Tests.SchedulerSamples.{by_length, shorter}
use my_shtty_pi_herdr_deck.Tests.AgentTests.{idle_agent}

abbrev agents : List String → List Agent
agents [] = []
agents (id ∷ ids) = record idle_agent { id = id } ∷ agents ids

abbrev fourteen : List Agent
fourteen =
    agents ("n" ∷ "m" ∷ "l" ∷ "k" ∷ "j" ∷ "i" ∷ "h" ∷ "g" ∷ "f" ∷ "e" ∷ "d" ∷ "c" ∷ "b" ∷ "a" ∷ [])

-- The last agent of the first page is selected.
abbrev first_page : AgentListPresentation
first_page = present fourteen (pos 0) (some "c") 12

next_page : move_agent_list_selection first_page (pos 1) 12 ≡ (some "b", 1)
unfolding present effective_ordered_selection move_agent_list_selection ◌+ℤ◌
next_page = refl

present-move_example :
    (a : Agent) × (nth (moved_index first_page (pos 1)) first_page.matching ≡ some a)
    × ((move_agent_list_selection first_page (pos 1) 12).0 ≡ some a.id)
    × (id_of
          (present first_page.matching
            (pos (move_agent_list_selection first_page (pos 1) 12).1)
            (move_agent_list_selection first_page (pos 1) 12).0
            12).selected
        ≡ some a.id)
unfolding present
present-move_example = present-move first_page (pos 1) (omega arith) (
  refl,
  (
    refl,
    (
      refl,
      (refl, (refl, (refl, (refl, (refl, (refl, (refl, (refl, (refl, (refl, (refl, tt))))))))))),
    ),
  ),
)

abbrev stray_result : DeckResult
stray_result = record {
  id = "r";
  task_id = none;
  run_id = some "elsewhere";
  status = accepted;
  summary = none;
  evidence = none;
  findings = none;
  tests = none;
  artifacts = none;
  unresolved = none;
}

abbrev stray_state : DeckState
stray_state = record { tasks = []; runs = []; questions = []; results = ("r", stray_result) ∷ [] }

-- An agent with neither run nor task is shown with a result that names no task.
stray_relation :
    (select_agent_inspector_relation by_length (some idle_agent) stray_state).result
    ≡ some stray_result
unfolding select_agent_inspector_relation sorted_by_id by_length shorter sort
stray_relation = refl

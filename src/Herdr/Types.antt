-- ===== src/Herdr/Types.antt =====
-- Panes, worktrees and snapshots of src/herdr/types.ts, with the fields that are named there.
use my_shtty_pi_herdr_deck.Base.{String, List, Option}
use my_shtty_pi_herdr_deck.Base.Json.{Number}

pub record HerdrSessionReference : Type 0 where
  pub source : String
  pub agent : String
  pub kind : String
  pub value : String

pub record HerdrOccupant : Type 0 where
  pub kind : Option String
  pub name : Option String
  pub agent_id : Option String
  pub terminal_id : Option String
  pub status : Option String
  pub session_id : Option String
  pub session_reference : Option HerdrSessionReference
  pub generation : Option Number

pub record HerdrPane : Type 0 where
  pub id : String
  pub terminal_id : Option String
  pub workspace_id : Option String
  pub tab_id : Option String
  pub cwd : Option String
  pub occupant : Option HerdrOccupant

pub record HerdrWorktree : Type 0 where
  pub id : Option String
  pub workspace_id : Option String
  pub path : String
  pub branch : Option String
  pub base : Option String
  pub tab_id : Option String
  pub root_pane_id : Option String

-- The part of a snapshot that reconciliation reads.
pub record HerdrSnapshot : Type 0 where
  pub sequence : Option Number
  pub panes : List HerdrPane
  pub worktrees : List HerdrWorktree

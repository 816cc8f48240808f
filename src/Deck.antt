-- ===== src/Deck.antt =====
-- src/deck: what the user interface shows.
pub mod Selections
pub mod Relations

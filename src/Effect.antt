-- ===== src/Effect.antt =====
-- effect/: the opt-in rules for Effect. A rule is a function from a node to the reports that its handlers
-- make there.
pub mod TaggedValues
pub mod Rules
pub mod ServiceImports

-- ===== src/Rules.antt =====
-- rules/: the generic rules. A rule is a function from a node, and what the rule keeps between nodes, to the
-- reports that its handlers make there.
pub mod ReportLists
pub mod UnknownTypes
pub mod Assertions
pub mod Calls
pub mod Expressions
pub mod Dictionaries
pub mod ReduceCopies
pub mod KnownValueWidening
pub mod WidenThenAssert

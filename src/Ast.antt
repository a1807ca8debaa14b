-- ===== src/Ast.antt =====
-- The syntax tree and the services of `@oxlint/plugins` that the rules of
-- .agents/skills/install-anti-slop/assets/anti-slop read. The package is not part of the repository: a
-- `SourceCode` is what it hands to a rule, and every definition takes one as an argument.
-- A node is an object with an identity and a `parent`, so a tree is a table of nodes: a number is the
-- identity of a node (`===` is `=#`), and a field that holds a node holds its number.
mod Syntax
mod Order
mod Walk
mod Views
mod ViewLaws
pub use Syntax.*
pub use Order.*
unfoldable pub use Walk.{walk}
pub use Walk.*
pub use Views.*
pub use ViewLaws.*

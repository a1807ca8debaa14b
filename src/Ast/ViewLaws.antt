-- ===== src/Ast/ViewLaws.antt =====
-- What a test on a node's `type` says of the node.
use zslay.Prelude.{Option, String, arith, some, ◌≡◌}
use zslay.Ast.Syntax.{
  Annotation, Node, binary_expression, call_expression, conditional_expression, identifier, literal,
  member_expression, string_value,
}
use zslay.Ast.Views.{
  Binary, Call, Conditional, Member, as_binary, as_call, as_conditional, as_identifier, as_member,
  as_string_literal,
}

pub as_identifier-eq-some :
    (v : Node) (name : String)
    → as_identifier v ≡ some name
    → (t : Option Annotation) × (v ≡ identifier name t)
as_identifier-eq-some (identifier x t) name e = (t, ground arith)
as_identifier-eq-some _ name e = absurd (ground arith)

pub as_string_literal-eq-some :
    (v : Node) (value : String)
    → as_string_literal v ≡ some value
    → v ≡ literal (string_value value)
as_string_literal-eq-some (literal (string_value x)) value e = ground arith
as_string_literal-eq-some _ value e = absurd (ground arith)

pub as_member-eq-some :
    (v : Node) (m : Member)
    → as_member v ≡ some m
    → v ≡ member_expression m.object m.property m.computed
as_member-eq-some (member_expression o p c) m e = ground arith
as_member-eq-some _ m e = absurd (ground arith)

pub as_call-eq-some :
    (v : Node) (c : Call) → as_call v ≡ some c → v ≡ call_expression c.callee c.arguments
as_call-eq-some (call_expression o p) c e = ground arith
as_call-eq-some _ c e = absurd (ground arith)

pub as_binary-eq-some :
    (v : Node) (b : Binary) → as_binary v ≡ some b → v ≡ binary_expression b.operator b.left b.right
as_binary-eq-some (binary_expression o l r) b e = ground arith
as_binary-eq-some _ b e = absurd (ground arith)

pub as_conditional-eq-some :
    (v : Node) (c : Conditional)
    → as_conditional v ≡ some c
    → v ≡ conditional_expression c.test c.consequent c.alternate
as_conditional-eq-some (conditional_expression t c a) b e = ground arith
as_conditional-eq-some _ b e = absurd (ground arith)

-- ===== src/Tests/Sample.antt =====
-- Syntax trees given as tables, with a check that a table is a tree.
use zslay.Prelude.{
  List, [], arith, false, get_or, length, none, refl, subst, suc, zero, ℕ, ◌+◌, ◌∷◌, ◌≡◌, ◌≤◌,
}
use Prim.Native.Nat.add
use native.Mathlib.Nat.{add-zero}
use zslay.Ast.{
  IsBelow, IsTree, Node, Scope, SourceCode, Variable, as_identifier, fields, other_node,
}

-- A node and the chain of its ancestors; the number of a node is its place in the table.
abbrev pub Entry : Type 0
Entry = Node × List ℕ

abbrev pub entry_at : List Entry → ℕ → Entry
entry_at [] n = (other_node [], [])
entry_at (e ∷ es) zero = e
entry_at (e ∷ es) (suc n) = entry_at es n

abbrev no_variable : Variable
no_variable = record { name = ""; identifiers = []; defs = []; references = [] }

abbrev pub variable_at : List Variable → ℕ → Variable
variable_at [] v = no_variable
variable_at (x ∷ xs) zero = x
variable_at (x ∷ xs) (suc v) = variable_at xs v

abbrev pub numbers_from : {A : Type 0} → ℕ → List A → List ℕ
numbers_from n [] = []
numbers_from n (_ ∷ xs) = n ∷ numbers_from (suc n) xs

-- The text of a node is its name, if it is an identifier. One scope holds every variable.
abbrev pub source_of : List Entry → List Variable → Scope → SourceCode
source_of es vs scope = record {
  node = λ n. (entry_at es n).0;
  ancestors = λ n. (entry_at es n).1;
  children = λ n. fields (entry_at es n).0;
  start = λ n. n;
  end = λ n. n;
  get_text = λ n. get_or (as_identifier (entry_at es n).0) "";
  get_scope = λ _. scope ∷ [];
  is_global_reference = λ _. false;
  variable = λ v. variable_at vs v;
  variables = numbers_from 0 vs;
  size = 100;
  get_comments_before = λ _. [];
  get_declared_variables = λ _. numbers_from 0 vs;
  scope_references = [];
}

abbrev pub no_scope : Scope
no_scope name = none

abbrev pub BelowFrom : ℕ → List Entry → Type 0
BelowFrom k [] = Unit
BelowFrom k (e ∷ es) = IsBelow k e.0 × BelowFrom (suc k) es

-- `ancestors` of the parent is the rest of the chain
abbrev pub Linked : List Entry → List ℕ → Type 0
Linked es [] = Unit
Linked es (p ∷ rest) = (entry_at es p).1 ≡ rest

abbrev pub AllLinked : List Entry → List Entry → Type 0
AllLinked es [] = Unit
AllLinked es (f ∷ fs) = Linked es f.1 × AllLinked es fs

entry_at-IsBelow : (k n : ℕ) (es : List Entry) → BelowFrom k es → IsBelow (n + k) (entry_at es n).0
entry_at-IsBelow k n [] b = tt
entry_at-IsBelow k zero (e ∷ es) b = rw (add.zero k) b.0
entry_at-IsBelow k (suc n) (e ∷ es) b =
    let same : n + suc k ≡ suc n + k = omega arith in
    rw (← same) (entry_at-IsBelow (suc k) n es b.1)

entry_at-linked :
    (es fs : List Entry) (n p : ℕ) (rest : List ℕ)
    → AllLinked es fs
    → (entry_at fs n).1 ≡ p ∷ rest
    → (entry_at es p).1 ≡ rest
entry_at-linked es [] n p rest l h = absurd (ground arith)
entry_at-linked es (f ∷ fs) zero p rest l h = rw h at l.0
entry_at-linked es (f ∷ fs) (suc n) p rest l h = entry_at-linked es fs n p rest l.1 h

pub source_of-IsTree :
    (es : List Entry) (vs : List Variable) (scope : Scope)
    → BelowFrom 0 es
    → AllLinked es es
    → IsTree (source_of es vs scope)
source_of-IsTree es vs scope b l = record {
  below = λ n. subst (λ k. IsBelow k (entry_at es n).0) (add-zero n) (entry_at-IsBelow 0 n es b);
  visited = λ n. subst (λ k. IsBelow k (entry_at es n).0) (add-zero n) (entry_at-IsBelow 0 n es b);
  chain = λ n p rest h. entry_at-linked es es n p rest l h;
}

pub entry_at-outside : (es : List Entry) (n : ℕ) → length es ≤ n → (entry_at es n).0 ≡ other_node []
entry_at-outside [] n h = refl
entry_at-outside (e ∷ es) zero h = absurd (omega arith)
entry_at-outside (e ∷ es) (suc n) h = entry_at-outside es n (omega arith)

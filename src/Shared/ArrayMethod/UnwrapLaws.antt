-- ===== src/Shared/ArrayMethod/UnwrapLaws.antt =====
-- `unwrapArrayExpression`: the loop ends, and stops at the expression inside the wrappers.
use zslay.Prelude.{Option, arith, none, refl, some, ℕ, ◌<◌, ◌↔◌, ◌≡◌}
use zslay.Ast.{
  IsBelow, IsTree, Node, SourceCode, Steps, Steps-unique, chain_expression, identifier, more,
  parenthesized_expression, stop, ts_as_expression, ts_non_null_expression, ts_satisfies_expression,
  ts_type_assertion, walk-Steps, walk_ends,
}
use zslay.Shared.ArrayMethod.{annotation_wrapped, array_wrapped, unwrap_array_expression}

pub array_wrapped_below : (v : Node) (n m : ℕ) → IsBelow n v → array_wrapped v ≡ some m → m < n
array_wrapped_below (identifier _ _) n m b h = absurd (ground arith)
array_wrapped_below _ n m b h = ground arith

pub annotation_wrapped_below :
    (v : Node) (n m : ℕ) → IsBelow n v → annotation_wrapped v ≡ some m → m < n
annotation_wrapped_below (identifier _ _) n m b h = absurd (ground arith)
annotation_wrapped_below _ n m b h = ground arith

module _ (s : SourceCode) where
  -- `k` stands in parentheses, optional chains and type-only wrappers inside `n`.
  pub data WrappedIn : ℕ → ℕ → Type 0 where
    bare : {n : ℕ} → array_wrapped (s.node n) ≡ none → WrappedIn n n
    bracketed : {n m k : ℕ} → s.node n ≡ parenthesized_expression m → WrappedIn k m → WrappedIn k n
    chained : {n m k : ℕ} → s.node n ≡ chain_expression m → WrappedIn k m → WrappedIn k n
    as_type : {n m t k : ℕ} → s.node n ≡ ts_as_expression m t → WrappedIn k m → WrappedIn k n
    cast : {n m t k : ℕ} → s.node n ≡ ts_type_assertion m t → WrappedIn k m → WrappedIn k n
    non_null : {n m k : ℕ} → s.node n ≡ ts_non_null_expression m → WrappedIn k m → WrappedIn k n
    satisfies :
        {n m t k : ℕ} → s.node n ≡ ts_satisfies_expression m t → WrappedIn k m → WrappedIn k n

  WrappedIn-step :
      (v : Node) (n m k : ℕ)
      → s.node n ≡ v
      → array_wrapped v ≡ some m
      → WrappedIn k m
      → WrappedIn k n
  WrappedIn-step (parenthesized_expression e) n m k p h w = bracketed (ground arith) w
  WrappedIn-step (chain_expression e) n m k p h w = chained (ground arith) w
  WrappedIn-step (ts_as_expression e t) n m k p h w = as_type {t = t} (ground arith) w
  WrappedIn-step (ts_type_assertion e t) n m k p h w = cast {t = t} (ground arith) w
  WrappedIn-step (ts_non_null_expression e) n m k p h w = non_null (ground arith) w
  WrappedIn-step (ts_satisfies_expression e t) n m k p h w = satisfies {t = t} (ground arith) w
  WrappedIn-step _ n m k p h w = absurd (ground arith)

  abbrev step : ℕ → Option ℕ
  step k = array_wrapped (s.node k)

  Steps-WrappedIn : {n k : ℕ} → Steps step n k → step k ≡ none → WrappedIn k n
  Steps-WrappedIn stop e = bare e
  Steps-WrappedIn (more {n} {m} {k} h r) e =
      WrappedIn-step (s.node n) n m k refl h (Steps-WrappedIn r e)

  WrappedIn-Steps : {n k : ℕ} → WrappedIn k n → Steps step n k × (step k ≡ none)
  WrappedIn-Steps (bare e) = (stop, e)
  WrappedIn-Steps (bracketed e w) = let (r, q) = WrappedIn-Steps w in (more (rw e) r, q)
  WrappedIn-Steps (chained e w) = let (r, q) = WrappedIn-Steps w in (more (rw e) r, q)
  WrappedIn-Steps (as_type e w) = let (r, q) = WrappedIn-Steps w in (more (rw e) r, q)
  WrappedIn-Steps (cast e w) = let (r, q) = WrappedIn-Steps w in (more (rw e) r, q)
  WrappedIn-Steps (non_null e w) = let (r, q) = WrappedIn-Steps w in (more (rw e) r, q)
  WrappedIn-Steps (satisfies e w) = let (r, q) = WrappedIn-Steps w in (more (rw e) r, q)

  module _ (tree : IsTree s) where
    down : (n m : ℕ) → step n ≡ some m → m < n
    down n m h = array_wrapped_below (s.node n) n m (tree.below n) h

    -- The loop ends in a tree, and returns exactly the expression that stands inside the wrappers and is
    -- itself none.
    pub unwrap_array_expression_iff : (n k : ℕ) → (unwrap_array_expression s n ≡ k) ↔ WrappedIn k n
    unfolding unwrap_array_expression
    unwrap_array_expression_iff n k = (
      λ e. rw e at (Steps-WrappedIn (walk-Steps step down n) (walk_ends step down n)),
      λ w.
          let (r, q) = WrappedIn-Steps w in
          Steps-unique (walk-Steps step down n) r (walk_ends step down n) q,
    )

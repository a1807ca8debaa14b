-- ===== src/Lib.antt =====
-- The Oxlint rules of .agents/skills/install-anti-slop/assets/anti-slop, modelled and verified.
--
-- The program is a lint plugin: each rule is an object whose handlers look at the nodes of a syntax tree and
-- report some of them. Rules share analyses of scopes, arrays and types. The paths below are relative to that
-- folder.
--
-- Prelude: lists, options, texts as code units, and the measure of loops that keep a set of visited names.
-- Ast: the ESTree nodes that the sources test, in Ast/Syntax; a node is a number, and a `SourceCode` says what
--   node a number is, which nodes are around it, its comments, scopes and variables. `IsTree` and `IsScoped`
--   (Ast/Order) are what the parser and the scope analysis guarantee: fields lie below their node, parents
--   agree with the chain of ancestors, scopes bind variables of the program. A field that holds nodes is a list
--   of numbers, and a node whose type no rule tests is an `other_node`.
-- Shared: the folder shared/. Scope is scope.ts; ArrayMethod is array-method.ts; ReflectMethod is
--   reflect-method.ts; FunctionParameters is function-parameters.ts; LexicalTypeParameters is
--   lexical-type-parameters.ts; TypeAlias and TypeAlias/Resolve are type-alias-resolution.ts; DictionaryTypes with
--   UnsafeValues, WideningTargets and EvidenceExpressions below it is dictionary-types.ts. Bindings is the search
--   that several rules write out: it follows a value through local bindings, with a set of visited variables.
-- Effect: the folder effect/. TaggedValues is shared/tagged-values.ts; Rules holds the rules on `_tag` tests,
--   on tagged constructions and on ternaries; ServiceImports is the rule on imports of service constructors.
-- Rules: the folder rules/. UnknownTypes holds the four rules on `unknown` and `object`; Assertions holds
--   no-chained-type-assertions and require-safety-comment-for-type-assertion; Calls holds no-array-filter-map,
--   no-module-mocking, no-reflect-apply and no-reflect-get; Expressions holds no-runtime-typeof,
--   no-conditional-empty-object-spread and no-shape-in-symbol-names; Dictionaries holds
--   no-unsafe-dictionary-type; ReduceCopies holds no-reduce-accumulator-copy; KnownValueWidening holds
--   no-known-value-widening, with its handlers in Handlers and CallArguments; WidenThenAssert holds
--   no-widen-then-assert, its types in the module itself and its flows in Flows. ReportLists says when the
--   reports of an answer are those of a predicate.
-- Tests: runs of the definitions, and the theorems at concrete inputs.
--
-- A rule is a function from a node, and from what the rule's other handlers have stored, to its list of
-- reports. The environment of aliases that a `Program` handler stores is an `Option`, `none` before it.
--
-- Loops and recursions that the code writes without a bound run on fuel. Loops down the tree have the number of
-- their node as fuel, since the nodes below have smaller numbers. isKnownArrayExpression has fuel for one way
-- down the tree for each variable, since its set of visited variables grows; resolvedTypeMatches and
-- resolvedSubstitutionArgument have fuel in the same way for their sets of names. The searches of Bindings have
-- fuel for one more step than there are variables, as each step visits a new one. The classifications of
-- dictionary types and of widening targets take their fuel as an argument and answer `none` when it runs out, as
-- the recursion of the code does not always end.
--
-- Not modelled: the wording of messages and the options' schemas, fixes to the source text, the caches that
-- change no result, the rule require-readable-spacing with the vendored eslint-stylistic that it configures, and the
-- registration of the rules. The Unicode classes of regular expressions are a parameter. `toLowerCase` is modelled
-- on the letters A to Z. The text that no-widen-then-assert cuts out of the source for a type is the text of that
-- node.
pub mod Prelude
pub mod Ast
pub mod Shared
pub mod Effect
pub mod Rules
pub mod Tests

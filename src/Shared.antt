-- ===== src/Shared.antt =====
-- shared/: what the generic rules have in common.
pub mod Scope
pub mod Bindings
pub mod ArrayMethod
pub mod ReflectMethod
pub mod FunctionParameters
pub mod LexicalTypeParameters
pub mod TypeAlias
pub mod DictionaryTypes

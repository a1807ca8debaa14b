-- ===== src/Tests.antt =====
-- Runs of the model on small programs, and the theorems at concrete inputs.
mod Sample
mod EffectTests
mod SharedTests
mod RuleTests
mod CallTests
mod TypeTests
mod DictionaryTests
mod SafetyTests
mod ReduceTests
mod AssertTests
mod WideningTests
mod WideningRuleTests

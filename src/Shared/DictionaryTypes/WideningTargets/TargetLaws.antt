-- ===== src/Shared/DictionaryTypes/WideningTargets/TargetLaws.antt =====
-- `classifyWideningTarget` against a relation on the syntax of types, without fuel.
use zslay.Prelude.{
  Bool, List, Option, String, [], arith, false, is_empty, none, not, refl, some, suc, true, zero, ℕ,
  ◌>>=◌, ◌↔◌, ◌∷◌, ◌≡◌, ◌∙◌,
}
use zslay.Ast.{SourceCode}
use zslay.Shared.TypeAlias.{Alias}
use zslay.Shared.DictionaryTypes.{
  Arguments, TypeEnvironment, alias_substitution, unwrap_transparent_type,
}
use zslay.Shared.DictionaryTypes.WideningTargets.{
  WideningTarget, broad_key_within, broad_target_within, classify_widening_target,
  generic_container, into_alias, open_dictionary, through_alias, widening, widening_if_key,
  widening_inside, widening_of_alias, widening_of_members, widening_of_name, widening_of_node,
  widening_plan,
}
use zslay.Shared.DictionaryTypes.WideningTargets.OpenKeys.{HasAlias, Refers, broad_key_complete}
use zslay.Shared.DictionaryTypes.WideningTargets.BroadEnds.{is_record, wraps}
use zslay.Shared.DictionaryTypes.WideningTargets.BroadEndsLaws.{
  broad_target_complete, opened_complete,
}
use zslay.Shared.DictionaryTypes.WideningTargets.Targets.{
  WidensTo, classify_sound, plain_answer, unknown_type, object_type, members, indexed, mapped,
  bare_record, record_of, wrapped, plain_alias, generic_alias,
}

generic_complete :
    (q : Option (Option WideningTarget)) (o : Option WideningTarget)
    → ((found : Option WideningTarget) → q ≡ some found → found ≡ some open_dictionary)
    → (q >>= λ found. some (through_alias true found)) ≡ some o
    → o ≡ some generic_container
generic_complete none o only h = absurd (ground arith)
generic_complete (some found) o only h = let p = rw (only found refl) at h in cc

module _ (s : SourceCode) (environment : TypeEnvironment) where
  name_plan :
      (t : ℕ) (name : String) (ts : List ℕ)
      → Refers s environment t name ts
      → widening_plan s environment t
        ≡ widening_of_name s environment (unwrap_transparent_type s t) name ts
  unfolding widening_plan
  name_plan t name ts (n, e, q) = rw (e, widening_plan) (rw (q, widening_of_node) refl)

  alias_plan :
      (t : ℕ) (name : String) (ts : List ℕ) (alias : Alias) (next : Arguments) (b : Bool)
      → Refers s environment t name ts
      → wraps s environment t name ≡ false
      → is_record s environment t name ≡ false
      → HasAlias s environment t name alias
      → alias_substitution s alias ts [] ≡ some next
      → is_empty alias.parameters ≡ b
      → widening_plan s environment t ≡ into_alias (not b) next name alias.type_annotation
  alias_plan t name ts alias next b r w y (a, v, q) m z =
      name_plan t name ts r
      ∙ rw (w, widening_of_name) (rw y (rw (v, widening_of_alias) (rw q (rw m (rw z refl)))))

  classify_complete :
      {t : ℕ} {x : WideningTarget}
      → WidensTo s environment t x
      → (fuel : ℕ) (o : Option WideningTarget)
      → classify_widening_target s environment fuel t ≡ some o
      → o ≡ some x
  unfolding classify_widening_target widening_plan
  classify_complete k zero o h = absurd (ground arith)
  classify_complete (unknown_type e) (suc fuel) o h =
      let p = rw (e, classify_widening_target) at h in cc
  classify_complete (object_type e) (suc fuel) o h =
      let p = rw (e, classify_widening_target) at h in cc
  classify_complete (members m ms e i) (suc fuel) o h =
      let p = rw (i, widening_of_members) at (rw (e, classify_widening_target) at h) in cc
  classify_complete (indexed ms e i) (suc fuel) o h =
      let p = rw (i, widening_of_members) at (rw (e, classify_widening_target) at h) in cc
  classify_complete (mapped p key a v e) (suc fuel) o h =
      let q = rw (e, classify_widening_target) at h in cc
  classify_complete {t} (bare_record name r w y) (suc fuel) o h =
      let plan : widening_plan s environment t ≡ widening (some open_dictionary) =
        name_plan t name [] r ∙ rw (w, widening_of_name) (rw y refl) in
      let p = rw (plan, classify_widening_target) at h in cc
  classify_complete {t} (record_of name key ks r w y opens) (suc fuel) o h =
      let plan : widening_plan s environment t ≡ widening_if_key key =
        name_plan t name (key ∷ ks) r ∙ rw (w, widening_of_name) (rw y refl) in
      opened_complete (broad_key_within s environment fuel [] [] key) o
        (broad_key_complete s environment [] opens fuel) (rw (plan, classify_widening_target) at h)
  classify_complete {t} (wrapped name u us r w k) (suc fuel) o h =
      let plan : widening_plan s environment t ≡ widening_inside u =
        name_plan t name (u ∷ us) r ∙ rw (w, widening_of_name) refl in
      classify_complete k fuel o (rw (plan, classify_widening_target) at h)
  classify_complete {t} (plain_alias name ts alias next r w y at m z k) (suc fuel) o h =
      let plan = alias_plan t name ts alias next true r w y at m z in
      broad_target_complete s environment k fuel o (
        plain_answer (broad_target_within s environment fuel next (name ∷ []) alias.type_annotation)
          o (rw (plan, classify_widening_target) at h))
  classify_complete {t} (generic_alias name ts alias next r w y at m z k) (suc fuel) o h =
      let plan = alias_plan t name ts alias next false r w y at m z in
      generic_complete
        (broad_target_within s environment fuel next (name ∷ []) alias.type_annotation) o
        (broad_target_complete s environment k fuel) (rw (plan, classify_widening_target) at h)

  -- Where the classification of a type answers, it finds a target exactly where the type is one: `unknown`, `object`,
  -- a type literal with members but without index signature, an open dictionary, one of these inside transparent
  -- wrappers, an alias without parameters for a broad type, or an alias with parameters for an open dictionary.
  pub classify_widening_target_iff :
      (fuel t : ℕ) (o : Option WideningTarget)
      → classify_widening_target s environment fuel t ≡ some o
      → (x : WideningTarget) → (o ≡ some x) ↔ WidensTo s environment t x
  classify_widening_target_iff fuel t o h x =
      (λ e. classify_sound s environment x fuel t (rw e at h), λ k. classify_complete k fuel o h)

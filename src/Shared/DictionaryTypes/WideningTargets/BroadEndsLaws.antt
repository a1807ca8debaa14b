-- ===== src/Shared/DictionaryTypes/WideningTargets/BroadEndsLaws.antt =====
-- `classifyAliasBroadTarget` finds the targets of its relation.
use zslay.Prelude.{
  Bool, List, Option, String, [], arith, false, none, refl, some, suc, true, zero, ℕ, ◌>>=◌, ◌∷◌,
  ◌≡◌, ◌∙◌,
}
use zslay.Ast.{SourceCode}
use zslay.Shared.DictionaryTypes.{Arguments, TypeEnvironment, unwrap_transparent_type}
use zslay.Shared.DictionaryTypes.WideningTargets.{
  WideningTarget, broad_aliased, broad_inside, broad_key_within, broad_of_alias, broad_of_name,
  broad_of_node, broad_plan, broad_target_within, open_dictionary, open_if, open_if_key, target,
}
use zslay.Shared.DictionaryTypes.WideningTargets.OpenKeys.{Refers, broad_key_complete}
use zslay.Shared.DictionaryTypes.WideningTargets.BroadEnds.{
  BroadEnd, unknown_type, object_type, indexed, mapped, passed, wrapped, bare_record, record_of,
  aliased,
}

pub opened_complete :
    (q : Option Bool) (o : Option WideningTarget)
    → ((b : Bool) → q ≡ some b → b ≡ true)
    → (q >>= λ broad. some (open_if broad)) ≡ some o
    → o ≡ some open_dictionary
opened_complete none o only h = absurd (ground arith)
opened_complete (some true) o only h = cc
opened_complete (some false) o only h = absurd (let p = only false refl in ground arith)

module _ (s : SourceCode) (environment : TypeEnvironment) where
  name_plan :
      (base : Arguments) (resolving : List String) (t : ℕ) (name : String) (ts : List ℕ)
      → Refers s environment t name ts
      → broad_plan s environment base resolving t
        ≡ broad_of_name s environment base resolving (unwrap_transparent_type s t) name ts
  unfolding broad_plan
  name_plan base resolving t name ts (n, e, q) = rw (e, broad_plan) (rw (q, broad_of_node) refl)

  pub broad_target_complete :
      {base : Arguments} {resolving : List String} {t : ℕ} {x : WideningTarget}
      → BroadEnd s environment base resolving t x
      → (fuel : ℕ) (o : Option WideningTarget)
      → broad_target_within s environment fuel base resolving t ≡ some o
      → o ≡ some x
  unfolding broad_target_within broad_plan
  broad_target_complete k zero o h = absurd (ground arith)
  broad_target_complete (unknown_type e) (suc fuel) o h =
      let p = rw (e, broad_target_within) at h in cc
  broad_target_complete (object_type e) (suc fuel) o h =
      let p = rw (e, broad_target_within) at h in cc
  broad_target_complete (indexed ms e i) (suc fuel) o h =
      let p = rw (i, open_if) at (rw (e, broad_target_within) at h) in cc
  broad_target_complete {base} (mapped p key a v e opens) (suc fuel) o h =
      opened_complete (broad_key_within s environment fuel base [] key) o
        (broad_key_complete s environment base opens fuel) (rw (e, broad_target_within) at h)
  broad_target_complete {base} {resolving} {t} (passed name ts u r q y k) (suc fuel) o h =
      let plan : broad_plan s environment base resolving t ≡ broad_inside u =
        name_plan base resolving t name ts r ∙ rw (q, broad_of_name) (rw y refl) in
      broad_target_complete k fuel o (rw (plan, broad_target_within) at h)
  broad_target_complete {base} {resolving} {t} (wrapped name u us r q w k) (suc fuel) o h =
      let plan : broad_plan s environment base resolving t ≡ broad_inside u =
        name_plan base resolving t name (u ∷ us) r ∙ rw (q, broad_of_name) (rw w refl) in
      broad_target_complete k fuel o (rw (plan, broad_target_within) at h)
  broad_target_complete {base} {resolving} {t} (bare_record name r q w y) (suc fuel) o h =
      let plan : broad_plan s environment base resolving t ≡ target (some open_dictionary) =
        name_plan base resolving t name [] r ∙ rw (q, broad_of_name) (rw w (rw y refl)) in
      let p = rw (plan, broad_target_within) at h in cc
  broad_target_complete {base} {resolving} {t} (record_of name key ks r q w y opens) (suc fuel) o
        h =
      let plan : broad_plan s environment base resolving t ≡ open_if_key key =
        name_plan base resolving t name (key ∷ ks) r ∙ rw (q, broad_of_name) (rw w (rw y refl)) in
      opened_complete (broad_key_within s environment fuel base [] key) o
        (broad_key_complete s environment base opens fuel) (rw (plan, broad_target_within) at h)
  broad_target_complete {base} {resolving} {t} (aliased name ts alias next r q w y (a, v, l) z m k)
        (suc fuel) o h =
      let plan : broad_plan s environment base resolving t
          ≡ broad_aliased next (name ∷ resolving) alias.type_annotation =
        name_plan base resolving t name ts r
        ∙ rw (q, broad_of_name) (rw w (rw y (rw (v, broad_of_alias) (rw z (rw l (rw m refl)))))) in
      broad_target_complete k fuel o (rw (plan, broad_target_within) at h)

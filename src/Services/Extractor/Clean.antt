-- ===== src/Services/Extractor/Clean.antt =====
-- brain-python/services/memory_extractor.py: an item that the validation of one candidate returns.
use test_bot.Base.{not}
use test_bot.Text.{strip}
use test_bot.Services.Extractor.{clean_candidate, single_spaces}
use test_bot.Services.Extractor.{item_metadata}
use test_bot.Base.{ltb}
use test_bot.Text.{codes}
use test_bot.Value.{Fields, get}
use test_bot.Services.Extractor.{evidence_ids, finish_candidate}
use test_bot.Services.Memory.Errors.{MemoryError}
use test_bot.Text.{lower}
use mathlib.Core.Path.{subst}
use test_bot.Services.Extractor.{string_value}
use test_bot.Floats.{float_of_int}
use test_bot.Services.Extractor.{in_unit, memory_class_by_type}
use test_bot.Base.{is_empty, ◌==◌}
use test_bot.Value.{arr, bool, dict, float, int, null, str}
use test_bot.Services.Extractor.{
  Attempt, Item, allowed_scopes, bounded_score, max_memory_content_chars, memory_class_of,
  memory_classes, scope_users, valid_memory_types,
}
use test_bot.Base.{
  All, Bool, Option, [], contains, false, if◌then◌else◌, length, list_eq, nat_eq, none, refl, some,
  true, ◌||◌, ◌∷◌, ◌≡◌, ◌≢◌,
}
use test_bot.Text.{Text}
use test_bot.Value.{Float, Runtime, Value, ltb_float}
use test_bot.Base.Dict.{Dict, lookup}
use test_bot.Base.{ap, ◌∙◌, arith, Bool-cases, Option-cases, inl, inr, ◌≤◌}
use test_bot.Base.Result.{◌>>=◌, raise, return}
use test_bot.Floats.{zero_float, one}

-- Not below zero and not above one.
abbrev pub IsUnit : Float → Type 0
IsUnit score = (ltb_float score zero_float || ltb_float one score) ≡ false

-- An item as the store expects it.
pub record IsClean (group_id : Text) (item : Item) : Type 0 where
  pub scoped : contains allowed_scopes item.scope ≡ true
  pub typed : contains valid_memory_types item.memory_type ≡ true
  pub classed : contains memory_classes item.memory_class ≡ true
  pub owned : item.group_id ≡ group_id
  pub filled : item.content ≢ []
  pub short : length item.content ≤ max_memory_content_chars
  pub confident : IsUnit item.confidence
  pub important : IsUnit item.importance
  pub users :
      scope_users item.scope item.user_id item.target_user_id
      ≡ some (item.user_id, item.target_user_id)

module _ {ℓ} {A : Type ℓ} where
  pub both_return {κ} :
      {B : Type κ} (first : Attempt B) (next : B → Attempt A) {y : A}
      → (first >>= next) ≡ return y
      → record { value : B; given : first ≡ return value; rest : next value ≡ return y }
  both_return (raise error) next e = cc
  both_return (return x) next e = record { value = x; given = refl; rest = e }

  refused_test :
      (test : Bool) (k : Attempt (Option A)) {x : A}
      → (if test then return none else k) ≡ return (some x)
      → (test ≡ false) × (k ≡ return (some x))
  refused_test true k e = cc
  refused_test false k e = (refl, e)

  given_option {κ} :
      {B : Type κ} (o : Option B) (k : B → Attempt (Option A)) {x : A}
      → elim o as (λ p. Attempt (Option A)) [ none ↦ return none | some y ↦ k y ] ≡ return (some x)
      → record { value : B; given : o ≡ some value; rest : k value ≡ return (some x) }
  given_option none k e = cc
  given_option (some y) k e = record { value = y; given = refl; rest = e }

  return_some_injective :
      (x y : A) → Path (Attempt (Option A)) (return (some x)) (return (some y)) → x ≡ y
  return_some_injective x y e = cc

pub some_injective {ℓ} : {A : Type ℓ} {x y : A} → Path (Option A) (some x) (some y) → x ≡ y
some_injective e = cc

lookup_All {ℓ κ} :
    {V : Type ℓ} (P : V → Type κ) (d : Dict Text V) (key : Text) {value : V}
    → All (λ p. P p.1) d
    → lookup key d ≡ some value
    → P value
unfolding lookup
lookup_All P [] key a e = cc
lookup_All P ((k, v) ∷ d) key {value} (holds, a) e = elim (Bool-cases (k == key)) [
  | inl same ↦ subst P (some_injective (rw (same, lookup) at e)) holds
  | inr differs ↦ lookup_All P d key a (rw (differs, lookup) at e)
]

class_of_tests :
    (unnamed known : Bool) (named memory_class : Text) (default : Option Text)
    → (known ≡ true → contains memory_classes named ≡ true)
    → (default ≡ some memory_class → contains memory_classes memory_class ≡ true)
    → (if unnamed then default else if known then some named else none) ≡ some memory_class
    → contains memory_classes memory_class ≡ true
class_of_tests true known named memory_class default named_case default_case e = default_case e
class_of_tests false true named memory_class default named_case default_case e =
    subst (λ c. contains memory_classes c ≡ true) (some_injective e) (named_case refl)
class_of_tests false false named memory_class default named_case default_case e = cc

memory_class_known :
    (rt : Runtime) (v : Value) (memory_type memory_class : Text)
    → memory_class_of rt v memory_type ≡ some memory_class
    → contains memory_classes memory_class ≡ true
unfolding memory_class_of
memory_class_known rt v memory_type memory_class e =
    let named = lower (string_value rt v) in
    class_of_tests (is_empty named) (contains memory_classes named) named memory_class
      (lookup memory_type memory_class_by_type) (λ known. known)
      (lookup_All (λ c. contains memory_classes c ≡ true) memory_class_by_type memory_type
        (refl, (refl, (refl, (refl, (refl, (refl, (refl, tt))))))))
      e

pub none-some {ℓ} : {A : Type ℓ} {x : A} → Path (Option A) none (some x) → ⊥
none-some e = cc

in_unit-IsUnit : (x score : Float) → in_unit x ≡ some score → IsUnit score
in_unit-IsUnit x score e = elim (Bool-cases (ltb_float x zero_float || ltb_float one x)) [
  | inl outside ↦ absurd (none-some (rw outside at e))
  | inr inside ↦ subst IsUnit (some_injective (rw inside at e)) inside
]

return_option :
    {o : Option Float} {score : Float}
    → Path (Attempt (Option Float)) (return o) (return (some score))
    → o ≡ some score
return_option e = cc

raise_return {ℓ} :
    {A : Type ℓ} {error : MemoryError} {x : A} → Path (Attempt A) (raise error) (return x) → ⊥
raise_return e = cc

bounded_score-IsUnit :
    (rt : Runtime) (v : Value) (score : Float)
    → bounded_score rt v ≡ return (some score)
    → IsUnit score
unfolding bounded_score
bounded_score-IsUnit rt (bool true) score e = subst IsUnit (some_injective (return_option e)) refl
bounded_score-IsUnit rt (bool false) score e = subst IsUnit (some_injective (return_option e)) refl
bounded_score-IsUnit rt (int n) score e = elim (Option-cases (float_of_int n)) [
  | inl lacking ↦ absurd (raise_return (rw (lacking, bounded_score) at e))
  | inr (y, found) ↦ in_unit-IsUnit y score (return_option (rw (found, bounded_score) at e))
]
bounded_score-IsUnit rt (float x) score e = in_unit-IsUnit x score (return_option e)
bounded_score-IsUnit rt (str s) score e = elim (Option-cases (rt.float_of s)) [
  | inl lacking ↦ absurd (none-some (return_option (rw (lacking, bounded_score) at e)))
  | inr (y, found) ↦ in_unit-IsUnit y score (return_option (rw (found, bounded_score) at e))
]
bounded_score-IsUnit rt null score e = cc
bounded_score-IsUnit rt (arr vs) score e = cc
bounded_score-IsUnit rt (dict vs) score e = cc

users_of_tests :
    (to_group to_user : Bool) (user target : Text) {x : Text × Text}
    → (if to_group
        then some ([], [])
        else if to_user
        then (if is_empty user then none else some (user, []))
        else if is_empty user || is_empty target
        then none
        else some (user, target))
      ≡ some x
    → (if to_group
        then some ([], [])
        else if to_user
        then (if is_empty x.0 then none else some (x.0, []))
        else if is_empty x.0 || is_empty x.1
        then none
        else some (x.0, x.1))
      ≡ some x
users_of_tests true to_user user target e = e
users_of_tests false true [] target e = absurd (none-some e)
users_of_tests false true (c ∷ user) target {x} e =
    subst (λ (y : Text × Text). (if is_empty y.0 then none else some (y.0, [])) ≡ some y)
      (some_injective e) refl
users_of_tests false false [] target e = absurd (none-some e)
users_of_tests false false (c ∷ user) [] e = absurd (none-some e)
users_of_tests false false (c ∷ user) (d ∷ target) {x} e =
    subst
      (λ (y : Text × Text).
        (if is_empty y.0 || is_empty y.1 then none else some (y.0, y.1)) ≡ some y)
      (some_injective e) refl

-- The users of an item are the ones that the scope asks for.
scope_users-scope_users :
    (scope user target : Text) {x : Text × Text}
    → scope_users scope user target ≡ some x
    → scope_users scope x.0 x.1 ≡ some x
unfolding scope_users
scope_users-scope_users scope user target e =
    users_of_tests (scope == codes "group") (scope == codes "user") user target e

content_tests :
    (content : Text)
    → (is_empty content || ltb max_memory_content_chars (length content)) ≡ false
    → (content ≢ []) × (length content ≤ max_memory_content_chars)
content_tests [] l = absurd (cc)
content_tests (c ∷ content) l = (λ e. cc, ground arith)

finish_candidate-IsClean :
    (rt : Runtime) (candidate : Fields) (group_id scope memory_type memory_class content : Text)
    (item : Item)
    → contains allowed_scopes scope ≡ true
    → contains valid_memory_types memory_type ≡ true
    → contains memory_classes memory_class ≡ true
    → (is_empty content || ltb max_memory_content_chars (length content)) ≡ false
    → finish_candidate rt candidate group_id scope memory_type memory_class content
      ≡ return (some item)
    → IsClean group_id item
unfolding finish_candidate
finish_candidate-IsClean rt candidate group_id scope memory_type memory_class content item s t c l
      e =
    let evidence = both_return (evidence_ids (get (codes "evidence_message_ids") candidate)) _ e in
    let confidence =
      both_return (bounded_score rt (get (codes "confidence") candidate)) _ evidence.rest in
    let importance =
      both_return (bounded_score rt (get (codes "importance") candidate)) _ confidence.rest in
    let c_given = given_option confidence.value _ importance.rest in
    let i_given = given_option importance.value _ c_given.rest in
    let users = given_option (scope_users scope _ _) _ i_given.rest in
    let metadata = both_return (item_metadata candidate) _ users.rest in
    subst (IsClean group_id) (return_some_injective _ item metadata.rest) (record {
      scoped = s;
      typed = t;
      classed = c;
      owned = refl;
      filled = (content_tests content l).0;
      short = (content_tests content l).1;
      confident =
          bounded_score-IsUnit rt (get (codes "confidence") candidate) c_given.value
            (confidence.given ∙ ap return c_given.given);
      important =
          bounded_score-IsUnit rt (get (codes "importance") candidate) i_given.value
            (importance.given ∙ ap return i_given.given);
      users = scope_users-scope_users scope _ _ users.given;
    })

known_test : (test : Bool) → not test ≡ false → test ≡ true
known_test test e = ground arith

pub clean_candidate-IsClean :
    (rt : Runtime) (candidate : Fields) (group_id : Text) (item : Item)
    → clean_candidate rt candidate group_id ≡ return (some item)
    → IsClean group_id item
unfolding clean_candidate
clean_candidate-IsClean rt candidate group_id item e =
    let scope = lower (string_value rt (get (codes "scope") candidate)) in
    let memory_type = lower (string_value rt (get (codes "memory_type") candidate)) in
    let content = strip (single_spaces (string_value rt (get (codes "content") candidate))) in
    let scoped = refused_test (not (contains allowed_scopes scope)) _ e in
    let typed = refused_test (not (contains valid_memory_types memory_type)) _ scoped.1 in
    let classed =
      given_option (memory_class_of rt (get (codes "memory_class") candidate) memory_type) _
        typed.1 in
    let owned = refused_test _ _ classed.rest in
    let filled =
      refused_test (is_empty content || ltb max_memory_content_chars (length content)) _ owned.1 in
    finish_candidate-IsClean rt candidate group_id scope memory_type classed.value content item
      (known_test (contains allowed_scopes scope) scoped.0)
      (known_test (contains valid_memory_types memory_type) typed.0)
      (memory_class_known rt _ memory_type classed.value classed.given) filled.0 filled.1

-- ===== src/Services/Memory/Scope.antt =====
-- brain-python/services/memory.py: who sees a memory.
use test_bot.Base.{is_empty, not, ◌||◌}
use test_bot.Env.{Env}
use test_bot.Base.{Bool, false, refl, ◌&&◌}
use test_bot.Base.{true, ◌≡◌, ◌⊎◌}
use test_bot.Text.{Text}
use test_bot.Base.{inl, inr}
use test_bot.Services.Memory.{
  MemoryRow, MemoryScope, in_group, is_active, of_user, of_relationship, equals, global, in_scope,
  recall_eligible,
}

second : (a b : Bool) → (a && b) ≡ true → b ≡ true
second true b h = h
second false b h = cc

pub first : (a b : Bool) → (a && b) ≡ true → a ≡ true
first true b h = refl
first false b h = cc

scoped :
    (scope : MemoryScope) (e g u k m : Bool)
    → elim scope as (λ s. Bool) [
      | global ↦ true
      | in_group ↦ g && e
      | of_user ↦ g && e && k && u
      | of_relationship ↦ g && e && k && m
    ]
      ≡ true
    → (scope ≡ global) ⊎ (e ≡ true)
scoped global e g u k m h = inl refl
scoped in_group e g u k m h = inr (second g e h)
scoped of_user e g u k m h = inr (second g e (first (g && e) k (first (g && e && k) u h)))
scoped of_relationship e g u k m h = inr (second g e (first (g && e) k (first (g && e && k) m h)))

-- A memory in scope is a global one or one of the group that asks.
pub in_scope_private :
    (group_id user_id : Text) (r : MemoryRow)
    → in_scope group_id user_id r ≡ true
    → (r.scope ≡ global) ⊎ (equals r.group_id group_id ≡ true)
unfolding in_scope
in_scope_private group_id user_id r h =
    scoped r.scope (equals r.group_id group_id) (not (is_empty group_id)) (equals r.user_id user_id)
      (not (is_empty user_id)) (equals r.user_id user_id || equals r.target_user_id user_id) h

pub eligible_active :
    (env : Env) (r : MemoryRow) → recall_eligible env r ≡ true → is_active r.status ≡ true
unfolding recall_eligible
eligible_active env r h = first (is_active r.status) _ h

-- What a recall of a group may use: active memories, global ones or of that group alone.
pub record IsRecalled (group_id : Text) (r : MemoryRow) : Type 0 where
  pub used : is_active r.status ≡ true
  pub owned : (r.scope ≡ global) ⊎ (equals r.group_id group_id ≡ true)

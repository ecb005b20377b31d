-- ===== src/Modules/Policy/Exact.antt =====
-- Which groups a module may serve, and the names of the variables that say so.
use test_bot.Base.{ℕ, ◌≡◌, refl, ◌≢◌, ◌↔◌, ◌⊎◌, inl, inr, true, false, List, [], ◌∷◌, ◌++◌}
use test_bot.Base.{nat_eq, list_eq, contains, is_empty, All, arith, Bool-cases}
use test_bot.Text.{
  Text, codes, strip, strip_by, IsWord, NoLead, NoTrail, lstrip_by, rstrip_by, strip_by-All,
  strip_by-NoLead, strip_by-NoTrail,
}
use test_bot.Env.{Env, getenv, id_set, id_set-IsWord, is_separator}
use test_bot.Modules.Command.{ModuleContext}
use test_bot.Modules.Policy.{
  upper, is_other, is_underscore, underscore_runs, env_module_name, group_set, blocklist_keys,
  allowlist_keys, lists_allow, module_group_allowed,
}

-- Some variable of the list names the group.
abbrev pub Lists : Env → List Text → Text → Type 0
Lists env [] g = ⊥
Lists env (key ∷ keys) g = (contains (id_set (getenv env key [])) g ≡ true) ⊎ Lists env keys g

contains-append :
    (xs ys : List Text) (a : Text)
    → (contains (xs ++ ys) a ≡ true) ↔ ((contains xs a ≡ true) ⊎ (contains ys a ≡ true))
contains-append [] ys a = (λ h. inr h, λ h. ground arith)
contains-append (x ∷ xs) ys a = ground (arith, contains-append xs ys a)

group_set-Lists :
    (env : Env) (keys : List Text) (g : Text)
    → (contains (group_set env keys) g ≡ true) ↔ Lists env keys g
unfolding group_set
group_set-Lists env [] g = (λ h. cc, λ h. absurd h)
group_set-Lists env (key ∷ keys) g = ground (
  arith,
  contains-append (id_set (getenv env key [])) (group_set env keys) g,
  group_set-Lists env keys g,
)

-- The chat is a group: it says so, or it has a group id.
abbrev pub InGroup : ModuleContext → Type 0
InGroup context = (context.message_type ≡ codes "group") ⊎ (strip context.group_id ≢ [])

is_empty-append :
    (xs ys : List Text) → (is_empty (xs ++ ys) ≡ true) ↔ ((xs ≡ []) × (is_empty ys ≡ true))
is_empty-append [] ys = ground arith
is_empty-append (x ∷ xs) ys = ground arith

-- No variable of the list names any group.
abbrev pub NoLists : Env → List Text → Type 0
NoLists env [] = Unit {0}
NoLists env (key ∷ keys) = (id_set (getenv env key []) ≡ []) × NoLists env keys

group_set-NoLists :
    (env : Env) (keys : List Text) → (is_empty (group_set env keys) ≡ true) ↔ NoLists env keys
unfolding group_set
group_set-NoLists env [] = (λ h. tt, λ h. refl)
group_set-NoLists env (key ∷ keys) = ground (
  arith,
  is_empty-append (id_set (getenv env key [])) (group_set env keys),
  group_set-NoLists env keys,
)

contains_nil : (xs : List Text) → All (IsWord is_separator) xs → contains xs [] ≡ false
contains_nil [] h = refl
contains_nil (x ∷ xs) ((full, _), hs) = ground (arith, full, contains_nil xs hs)

-- An id of a variable is never empty.
not-Lists_nil : (env : Env) (keys : List Text) → ¬ Lists env keys []
not-Lists_nil env [] h = h
not-Lists_nil env (key ∷ keys) h = ground (
  arith,
  contains_nil (id_set (getenv env key [])) (id_set-IsWord (getenv env key [])),
  not-Lists_nil env keys,
)

-- The tests by cases, for any two lists of which the first does not hold the empty id.
module _ (blocked allowed : List Text) (context : ModuleContext) where
  pub lists_allow_iff :
      ¬ (contains blocked [] ≡ true)
      → (lists_allow blocked allowed context ≡ true) ↔ (
          (¬ InGroup context)
          ⊎ ((¬ (contains blocked (strip context.group_id) ≡ true))
              × ((is_empty allowed ≡ true) ⊎ (contains allowed (strip context.group_id) ≡ true))))
  unfolding lists_allow
  lists_allow_iff h = ground arith

-- What the policy states, by the variables and not by the tests.
abbrev pub Permitted : Env → Text → ModuleContext → Type 0
Permitted env name context =
    (¬ InGroup context)
    ⊎ ((¬ Lists env (blocklist_keys name) (strip context.group_id))
        × (NoLists env (allowlist_keys name)
            ⊎ Lists env (allowlist_keys name) (strip context.group_id)))

-- A module may serve a chat exactly when the chat is no group; or when no block list names its
-- group, and an allow list names it or no allow list names any. The lists are those of the module
-- under its two prefixes, and the common ones.
pub module_group_allowed_iff :
    (env : Env) (name : Text) (context : ModuleContext)
    → (module_group_allowed env name context ≡ true) ↔ Permitted env (env_module_name name) context
unfolding module_group_allowed
module_group_allowed_iff env name context =
    let blocked = blocklist_keys (env_module_name name) in
    let allowed = allowlist_keys (env_module_name name) in
    let g = strip context.group_id in
    ground (
      arith,
      lists_allow_iff (group_set env blocked) (group_set env allowed) context
          (λ h. not-Lists_nil env blocked ((group_set-Lists env blocked []).0 h)),
      group_set-Lists env blocked g,
      group_set-Lists env allowed g,
      group_set-NoLists env allowed,
    )

-- A letter of A-Z, a digit, or an underscore.
abbrev pub IsNameChar : ℕ → Type 0
IsNameChar c = (is_other c ≡ false) ⊎ (c ≡ b'_')

underscore_runs-IsNameChar : (s : Text) → All IsNameChar (underscore_runs s)
unfolding underscore_runs
underscore_runs-IsNameChar [] = tt
underscore_runs-IsNameChar (c ∷ cs) = ground (arith, underscore_runs-IsNameChar cs)

-- No two underscores side by side.
abbrev pub NoTwin : Text → Type 0
NoTwin [] = Unit
NoTwin (c ∷ []) = Unit
NoTwin (c ∷ d ∷ cs) = ¬ ((c ≡ b'_') × (d ≡ b'_')) × NoTwin (d ∷ cs)

NoTwin-cons : (c : ℕ) (s : Text) → c ≢ b'_' → NoTwin s → NoTwin (c ∷ s)
NoTwin-cons c [] h k = tt
NoTwin-cons c (d ∷ s) h k = ((λ e. h e.0), k)

other_underscore : (c : ℕ) → is_other c ≡ false → c ≢ b'_'
other_underscore c h = ground arith

underscore_runs-NoTwin : (s : Text) → NoTwin (underscore_runs s)
unfolding underscore_runs nat_eq
underscore_runs-NoTwin [] = tt
underscore_runs-NoTwin (c ∷ []) = ground arith
underscore_runs-NoTwin (c ∷ d ∷ cs) =
    let ih = underscore_runs-NoTwin (d ∷ cs) in
    elim (Bool-cases (is_other c)) [
      | inr plain ↦
          rw plain (NoTwin-cons c (underscore_runs (d ∷ cs)) (other_underscore c plain) ih)
      | inl other ↦ elim (Bool-cases (is_other d)) [
        | inl next ↦ rw (other, next) (rw next at ih)
        | inr next ↦ rw (other, next) ((λ e. other_underscore d next e.1), (rw next at ih))
      ]
    ]

lstrip_by-NoTwin : (s : Text) → NoTwin s → NoTwin (lstrip_by is_underscore s)
unfolding lstrip_by
lstrip_by-NoTwin [] h = tt
lstrip_by-NoTwin (c ∷ []) h = ground arith
lstrip_by-NoTwin (c ∷ d ∷ cs) h = ground (arith, lstrip_by-NoTwin (d ∷ cs) h.1)

rstrip_by-NoTwin : (s : Text) → NoTwin s → NoTwin (rstrip_by is_underscore s)
unfolding rstrip_by
rstrip_by-NoTwin [] h = tt
rstrip_by-NoTwin (c ∷ []) h = ground arith
rstrip_by-NoTwin (c ∷ d ∷ cs) h = ground (arith, rstrip_by-NoTwin (d ∷ cs) h.1)

strip_by-NoTwin : (s : Text) → NoTwin s → NoTwin (strip_by is_underscore s)
unfolding strip_by
strip_by-NoTwin s h = rstrip_by-NoTwin (lstrip_by is_underscore s) (lstrip_by-NoTwin s h)

-- The name of a module's variables holds A-Z, 0-9 and single underscores alone, and neither
-- begins nor ends with an underscore.
pub env_module_name_shape :
    (name : Text)
    → All IsNameChar (env_module_name name)
      × NoLead is_underscore (env_module_name name)
      × NoTrail is_underscore (env_module_name name)
      × NoTwin (env_module_name name)
unfolding env_module_name
env_module_name_shape name = (
  strip_by-All is_underscore IsNameChar (underscore_runs (upper name))
      (underscore_runs-IsNameChar (upper name)),
  strip_by-NoLead is_underscore (underscore_runs (upper name)),
  strip_by-NoTrail is_underscore (underscore_runs (upper name)),
  strip_by-NoTwin (underscore_runs (upper name)) (underscore_runs-NoTwin (upper name)),
)

-- ===== src/Services/Memory/Removal.antt =====
-- brain-python/services/memory.py: what removing memories does.
use test_bot.Base.{list_eq, nat_eq, ◌&&◌, ◌==◌, ◌||◌}
use test_bot.Base.{Bool, List, [], false, if◌then◌else◌, keep, none, not, refl, true, ℕ, ◌∷◌, ◌≡◌}
use test_bot.Text.{Text}
use test_bot.Base.{ap, Bool-cases, inl, inr, find}
use test_bot.Services.Memory.{
  MemoryRow, is_active, is_kept, addressed, archive_memory, archived_row, delete_group,
  delete_memory, delete_user, equals, get_memory, group_rows, user_rows, removed, update_where,
}

-- An update that only takes rows it leaves untaken leaves nothing to find.
find_updated :
    (p : MemoryRow → Bool) (f : MemoryRow → MemoryRow) (rows : List MemoryRow)
    → ((r : MemoryRow) → p (f r) ≡ false)
    → find p (update_where p f rows) ≡ none
unfolding update_where
find_updated p f [] h = refl
find_updated p f (r ∷ rs) h = elim (Bool-cases (p r)) [
  | inl taken ↦ rw (taken, h r) (find_updated p f rs h)
  | inr left_out ↦ rw (left_out, left_out) (find_updated p f rs h)
]

none_kept : (a b : Bool) → (a && false && b) ≡ false
none_kept true b = refl
none_kept false b = refl

second : (a b : Bool) → (a && b) ≡ true → b ≡ true
second true b h = h
second false b h = cc

first : (a b : Bool) → (a && b) ≡ true → a ≡ true
first true b h = refl
first false b h = cc

-- A deleted memory is gone: with the same rights it is not found any more.
pub get_memory-delete_memory :
    (now memory_id : ℕ) (group_id : Text) (allow_global : Bool) (rows : List MemoryRow)
    → get_memory memory_id group_id allow_global
        (delete_memory now memory_id group_id allow_global rows).1
      ≡ none
unfolding get_memory delete_memory addressed removed
get_memory-delete_memory now memory_id group_id allow_global rows =
    find_updated (addressed memory_id group_id allow_global) (removed now) rows untaken
  where
    untaken : (r : MemoryRow) → addressed memory_id group_id allow_global (removed now r) ≡ false
    untaken r = none_kept (r.id == memory_id) (allow_global || equals r.group_id group_id)

-- An update that takes no row of a class, and keeps its rows in or out of it, keeps the class.
keep_updated :
    (q p : MemoryRow → Bool) (f : MemoryRow → MemoryRow) (rows : List MemoryRow)
    → ((r : MemoryRow) → p r ≡ true → (q r ≡ false) × (q (f r) ≡ false))
    → keep q (update_where p f rows) ≡ keep q rows
unfolding update_where
keep_updated q p f [] h = refl
keep_updated q p f (r ∷ rs) h = elim (Bool-cases (p r)) [
  | inl taken ↦ let (out, after) = h r taken in rw (taken, out, after) (keep_updated q p f rs h)
  | inr left_out ↦
      rw left_out (ap (λ rest. if q r then r ∷ rest else rest) (keep_updated q p f rs h))
]

-- The memories that do not carry the id of the group.
abbrev pub elsewhere : Text → List MemoryRow → List MemoryRow
elsewhere group_id = keep (λ r. not (equals r.group_id group_id))

-- Deleting or archiving one memory without the right to global ones, deleting those of a user in a
-- group, and deleting those of a group leave every memory that does not carry the id of the group
-- as it is, and at its place among these.
pub removal_elsewhere :
    (now memory_id : ℕ) (at group_id user_id actor_id : Text) (rows : List MemoryRow)
    → (elsewhere group_id (delete_memory now memory_id group_id false rows).1
        ≡ elsewhere group_id rows)
      × (elsewhere group_id (delete_user now group_id user_id rows).1 ≡ elsewhere group_id rows)
      × (elsewhere group_id (delete_group now group_id rows).1 ≡ elsewhere group_id rows)
      × (elsewhere group_id (archive_memory now at memory_id group_id false actor_id rows).1
          ≡ elsewhere group_id rows)
unfolding delete_memory delete_user delete_group archive_memory addressed removed archived_row
removal_elsewhere now memory_id at group_id user_id actor_id rows = (
  keep_updated (λ r. not (equals r.group_id group_id)) (addressed memory_id group_id false)
      (removed now) rows
      (λ r h.
        own r (second (r.id == memory_id && is_kept r.status) (equals r.group_id group_id) h)),
  keep_updated (λ r. not (equals r.group_id group_id)) (user_rows group_id user_id) (removed now)
      rows
      (λ r h. own r (
        second (is_active r.status) (equals r.group_id group_id)
          (first (is_active r.status && equals r.group_id group_id) (equals r.user_id user_id) h))),
  keep_updated (λ r. not (equals r.group_id group_id)) (group_rows group_id) (removed now) rows
      (λ r h. own r (second (is_active r.status) (equals r.group_id group_id) h)),
  keep_updated (λ r. not (equals r.group_id group_id)) (addressed memory_id group_id false)
      (archived_row now actor_id at) rows
      (λ r h.
        own r (second (r.id == memory_id && is_kept r.status) (equals r.group_id group_id) h)),
)
  where
    own :
        (r : MemoryRow)
        → equals r.group_id group_id ≡ true
        → (not (equals r.group_id group_id) ≡ false) × (not (equals r.group_id group_id) ≡ false)
    own r e = (ap not e, ap not e)

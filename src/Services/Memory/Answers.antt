-- ===== src/Services/Memory/Answers.antt =====
-- brain-python/services/memory.py: how a search on the store ends, and searches in sequence.
use test_bot.Base.{
  All, Bool, Bool-cases, List, Option, [], arith, inl, inr, is_empty, keep, nat_eq, refl, some,
  none, sym, true, ◌∷◌, ◌≡◌, ap, ◌∙◌,
}
use mathlib.Core.Path.{subst}
use test_bot.Base.Result.{raise, return}
use test_bot.Text.{Text}
use test_bot.Services.Extractor.{Attempt}
use test_bot.Services.Extractor.Steps.{IsHealthy}
use test_bot.Services.Extractor.Tried.{Ran, statement-Ran}
use test_bot.Services.Memory.{MemoryRow}
use test_bot.Services.Memory.Store.{
  Action, Fault, Memories, World, after, query, run_statement, sent_to, settle,
}

module _ {A : Type 0} (P : A → Type 0) where
  -- How a search ends that may fail: the tables stay, and so does the health of the database.
  abbrev pub Searched : World → Attempt A × World → Type 0
  Searched w (raise e, w') = (w'.tables ≡ w.tables) × (IsHealthy w → IsHealthy w')
  Searched w (return a, w') = (w'.tables ≡ w.tables) × P a × (IsHealthy w → IsHealthy w')

  -- How one ends that fails in an unhealthy database alone.
  abbrev pub Answers : World → Attempt A × World → Type 0
  Answers w (raise e, w') = (w'.tables ≡ w.tables) × (IsHealthy w → ⊥)
  Answers w (return a, w') = (w'.tables ≡ w.tables) × P a × (IsHealthy w → IsHealthy w')

  abbrev pub Fine : Memories → Option (A × Memories) → Type 0
  Fine t none = Unit
  Fine t (some (a, t')) = (t' ≡ t) × P a

  settle-Searched :
      (o : Option (A × Memories)) (w v : World)
      → v.tables ≡ w.tables
      → (IsHealthy w → IsHealthy v)
      → Fine w.tables o
      → Searched w (settle o v)
  settle-Searched none w v e h f = (e, h)
  settle-Searched (some (a, t')) w v e h f = (f.0, f.1, h)

  some_fault :
      (fault : Option Fault) (faults : List (Option Fault)) (w : World)
      → w.faults ≡ fault ∷ faults
      → IsHealthy w
      → ⊥
  some_fault fault faults w e h = ground (arith, ap is_empty e, ap is_empty h.1)

  run_statement-Searched :
      (faults : List (Option Fault)) (change : Memories → Option (A × Memories)) (w : World)
      → w.faults ≡ faults
      → Fine w.tables (change w.tables)
      → Searched w (run_statement faults change w)
  run_statement-Searched [] change w e f = settle-Searched (change w.tables) w w refl (λ h. h) f
  run_statement-Searched (none ∷ faults) change w e f =
      settle-Searched (change w.tables) w (record w { faults = faults }) refl
        (λ h. absurd (some_fault none faults w e h)) f
  run_statement-Searched (some fault ∷ faults) change w e f =
      (refl, λ h. absurd (some_fault (some fault) faults w e h))

  pub sent_to-Searched :
      (url : Option Text) (change : Memories → Option (A × Memories)) (w : World)
      → Fine w.tables (change w.tables)
      → Searched w (sent_to url change w)
  sent_to-Searched none change w f = (refl, λ h. h)
  sent_to-Searched (some url) change w f = run_statement-Searched w.faults change w refl f

  ran-Answers :
      (look : Memories → A) (w : World) (o : Attempt A × World)
      → P (look w.tables)
      → Ran (λ tables. (look tables, tables)) w o
      → Answers w o
  ran-Answers look w (raise e, w') p broken = (broken.tables, broken.unhealthy)
  ran-Answers look w (return a, w') p ran = (ran.1, subst P (sym ran.0) p, ran.2)

  pub query-Answers :
      (look : Memories → A) (w : World) → P (look w.tables) → Answers w (query look w)
  query-Answers look w p =
      ran-Answers look w (query look w) p (statement-Ran (λ tables. (look tables, tables)) w)

module _ {A B : Type 0} (P : A → Type 0) (Q : B → Type 0) where
  after_step :
      (w w' : World) (o : Attempt B × World)
      → w'.tables ≡ w.tables
      → (IsHealthy w → IsHealthy w')
      → Answers Q w' o
      → Answers Q w o
  after_step w w' (raise e, v) same h a = (a.0 ∙ same, λ k. a.1 (h k))
  after_step w w' (return b, v) same h a = (a.0 ∙ same, a.1, λ k. a.2 (h k))

  pub after-Answers :
      (w : World) (o : Attempt A × World) (next : A → Action B)
      → Answers P w o
      → ((a : A) (w' : World) → w'.tables ≡ w.tables → P a → Answers Q w' (next a w'))
      → Answers Q w (after o next)
  after-Answers w (raise e, w') next a h = a
  after-Answers w (return x, w') next a h = after_step w w' (next x w') a.0 a.2 (h x w' a.0 a.1)

pub keep_only :
    (P : MemoryRow → Type 0) (p q : MemoryRow → Bool) (rows : List MemoryRow)
    → All (λ r. q r ≡ true → P r) rows
    → ((r : MemoryRow) → p r ≡ true → q r ≡ true)
    → All P (keep p rows)
keep_only P p q [] a h = tt
keep_only P p q (r ∷ rs) (k, ks) h = elim (Bool-cases (p r)) [
  | inl kept ↦ rw kept (k (h r kept), keep_only P p q rs ks h)
  | inr dropped ↦ rw dropped (keep_only P p q rs ks h)
]

pub Answers-map :
    {A : Type 0} (P Q : A → Type 0) (w : World) (o : Attempt A × World)
    → ((a : A) → P a → Q a)
    → Answers P w o
    → Answers Q w o
Answers-map P Q w (raise e, w') h a = a
Answers-map P Q w (return x, w') h a = (a.0, h x a.1, a.2)

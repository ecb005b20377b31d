-- ===== src/Services/Memory/Merged.antt =====
-- brain-python/services/memory.py: the merged candidates of a recall.
use test_bot.Base.{
  All, Bool-cases, Distinct, List, [], arith, contains, false, inl, inr, map, nat_eq, refl, sym,
  true, ℕ, ◌&&◌, ◌==◌, ◌∷◌, ◌≡◌, ap, ◌∙◌,
}
use test_bot.Base.{==-true, ltb, ◌⊎◌}
use mathlib.Core.Path.{subst}
use test_bot.Value.{ltb_float}
use test_bot.Services.Memory.{MemoryRow}
use test_bot.Services.Memory.Relevance.{
  MemoryCandidate, joined, merge_from, merge_one, preferred_candidate_record,
}
use test_bot.Floats.{leb_float}

abbrev id_of : MemoryCandidate → ℕ
id_of c = c.memory.id

preferred_one :
    (left right : MemoryRow)
    → (preferred_candidate_record left right ≡ left)
      ⊎ (preferred_candidate_record left right ≡ right)
unfolding preferred_candidate_record
preferred_one left right = elim (Bool-cases (ltb_float left.quality_score right.quality_score)) [
  | inl better ↦ rw better (inr refl)
  | inr worse ↦
      elim (Bool-cases (
        leb_float left.quality_score right.quality_score
        && leb_float right.quality_score left.quality_score
        && ltb left.last_seen_at right.last_seen_at)) [
          | inl later ↦ rw (worse, later) (inr refl)
          | inr earlier ↦ rw (worse, earlier) (inl refl)
        ]
]

joined_id :
    (d c : MemoryCandidate) → (d.memory.id == c.memory.id) ≡ true → id_of (joined d c) ≡ id_of d
joined_id d c same = elim (preferred_one d.memory c.memory) [
  | inl left ↦ ap (λ (r : MemoryRow). r.id) left
  | inr right ↦ ap (λ (r : MemoryRow). r.id) right ∙ sym (==-true d.memory.id c.memory.id same)
]

-- Distinct ids of the merged candidates.
merge_one_new :
    (c : MemoryCandidate) (other : ℕ) (ds : List MemoryCandidate)
    → (other == id_of c) ≡ false
    → contains (map id_of ds) other ≡ false
    → contains (map id_of (merge_one c ds)) other ≡ false
unfolding merge_one
merge_one_new c other [] h k = ground (arith, h)
merge_one_new c other (d ∷ ds) h k = elim (Bool-cases (d.memory.id == c.memory.id)) [
  | inl same ↦ rw (same, joined_id d c same) k
  | inr differs ↦ rw differs (ground (arith, k, merge_one_new c other ds h (ground (arith, k))))
]

merge_one-Distinct :
    (c : MemoryCandidate) (ds : List MemoryCandidate)
    → Distinct (map id_of ds)
    → Distinct (map id_of (merge_one c ds))
unfolding merge_one nat_eq
merge_one-Distinct c [] d = (refl, tt)
merge_one-Distinct c (e ∷ es) (new, d) = elim (Bool-cases (e.memory.id == c.memory.id)) [
  | inl same ↦ rw (same, joined_id e c same) (new, d)
  | inr differs ↦ rw differs (merge_one_new c e.memory.id es differs new, merge_one-Distinct c es d)
]

pub merge_from-Distinct :
    (cs ds : List MemoryCandidate)
    → Distinct (map id_of ds)
    → Distinct (map id_of (merge_from ds cs))
unfolding merge_from
merge_from-Distinct [] ds d = d
merge_from-Distinct (c ∷ cs) ds d =
    merge_from-Distinct cs (merge_one c ds) (merge_one-Distinct c ds d)

-- A property of memories holds of the merged candidates if it holds of all.
module _ (P : MemoryRow → Type 0) where
  abbrev Of : MemoryCandidate → Type 0
  Of c = P c.memory

  joined-Of : (d c : MemoryCandidate) → Of d → Of c → Of (joined d c)
  joined-Of d c k h = elim (preferred_one d.memory c.memory) [
    | inl left ↦ subst P (sym left) k
    | inr right ↦ subst P (sym right) h
  ]

  All-merge_one :
      (c : MemoryCandidate) (ds : List MemoryCandidate) → Of c → All Of ds → All Of (merge_one c ds)
  unfolding merge_one
  All-merge_one c [] h a = (h, tt)
  All-merge_one c (d ∷ ds) h (k, ks) = elim (Bool-cases (d.memory.id == c.memory.id)) [
    | inl same ↦ rw same (joined-Of d c k h, ks)
    | inr differs ↦ rw differs (k, All-merge_one c ds h ks)
  ]

  pub All-merge_from :
      (cs ds : List MemoryCandidate) → All Of cs → All Of ds → All Of (merge_from ds cs)
  unfolding merge_from
  All-merge_from [] ds a b = b
  All-merge_from (c ∷ cs) ds (h, hs) b =
      All-merge_from cs (merge_one c ds) hs (All-merge_one c ds h b)

-- ===== src/Services/Memory/Recalled.antt =====
-- brain-python/services/memory.py: what a recall gives, whichever of its searches find something or fail.
use test_bot.Base.{
  All, Bool, Bool-cases, Distinct, List, Option, [], arith, false, inl, inr, is_empty, keep, length,
  map, nat_eq, refl, some, none, suc, sym, take, true, zero, ℕ, ◌==◌, ◌||◌, ◌∷◌, ◌≡◌, ◌≤◌,
}
use mathlib.Core.Path.{subst}
use test_bot.Base.Int.{ℤ, pos, negsuc}
use test_bot.Services.Memory.{delete_group, equals, group_rows, removed, update_where}
use test_bot.Base.Result.{raise, return}
use test_bot.Text.{Text, codes, strip}
use test_bot.Value.{Float, Runtime, string_id}
use test_bot.Env.{Env, env_unless_off}
use test_bot.Schemas.{ChatRequest}
use test_bot.Services.Ai.{Upstream}
use test_bot.Services.Embedding.{EmbeddingConfig, Vector}
use test_bot.Services.Extractor.{Attempt}
use test_bot.Services.Memory.{MemoryRow, recall_eligible}
use test_bot.Services.Memory.Scope.{first, IsRecalled, in_scope_private}
use test_bot.Services.Memory.Ageing.{as_record}
use test_bot.Services.Memory.Store.{Memories, World, checked_statement}
use test_bot.Services.Memory.Recall.{
  by_distance, distances, embedded, valued, with_value, with_id, unchanged, limited, is_searched,
  keyword_candidates, fts_candidates, vector_candidates,
}
use test_bot.Services.Memory.Ranking.{
  debug_recall, or_no_candidates, ranked, recall, safe_vector_candidates, search_vector,
}
use test_bot.Services.Memory.Relevance.{MemoryCandidate, MemoryScore, Searches}
use test_bot.Services.Memory.Relevance.{memory_score, merge_from}
use test_bot.Services.Memory.Ranking.{scores_before}
use test_bot.Services.Memory.Merged.{All-merge_from, merge_from-Distinct}
use test_bot.Services.Memory.Sorted.{
  keep-Distinct, map-map_key, sort_first-Distinct, take_first-Distinct, All-append, All-keep_all,
  All-map_of, All-sort_first, All-take_first,
}
use test_bot.Services.Memory.Answers.{
  Answers, Answers-map, Fine, Searched, after-Answers, keep_only, query-Answers, sent_to-Searched,
}

module _ (env : Env) (group_id : Text) where
  -- A memory that the group may be shown, and that counts as one to recall.
  abbrev pub MayRecall : MemoryRow → Type 0
  MayRecall r = IsRecalled group_id r × (recall_eligible env r ≡ true)

  searched_may :
      (searches : Searches) (user_id : Text) (r : MemoryRow)
      → is_searched env searches false group_id user_id r ≡ true
      → MayRecall (as_record r)
  unfolding is_searched as_record recall_eligible
  searched_may searches user_id r h = (
    record { used = ground arith; owned = in_scope_private group_id user_id r (ground arith) },
    ground arith,
  )

-- The searches give memories of a kind alone, if the rows that their `WHERE` admits are of that kind.
module _ (env : Env) (group_id : Text) (Allowed : MemoryRow → Type 0) where
  abbrev Found : List MemoryCandidate → Type 0
  Found = All (λ (c : MemoryCandidate). Allowed c.memory)

  module _ (searches : Searches) (user_id : Text) where
    abbrev pub Allows : Memories → Type 0
    Allows t =
        All (λ r. is_searched env searches false group_id user_id r ≡ true → Allowed (as_record r))
          t.rows

    searched_rows :
        (p : MemoryRow → Bool) (t : Memories)
        → Allows t
        → ((r : MemoryRow) → p r ≡ true → is_searched env searches false group_id user_id r ≡ true)
        → All (λ r. Allowed (as_record r)) (keep p t.rows)
    searched_rows p t allows h =
        keep_only (λ r. Allowed (as_record r)) p (is_searched env searches false group_id user_id)
          t.rows allows h

    keyword_candidates-Answers :
        (text : Text) (limit : ℕ) (w : World)
        → Allows w.tables
        → Answers Found w (keyword_candidates env searches group_id user_id text limit false w)
    unfolding keyword_candidates
    keyword_candidates-Answers text limit w allows = query-Answers Found _ w (
        All-map_of (λ (c : MemoryCandidate). Allowed c.memory) _ _
          (All-take_first (λ r. Allowed (as_record r)) limit _
            (All-sort_first (λ r. Allowed (as_record r)) _ _
              (searched_rows _ w.tables allows (λ r h. first _ _ h)))))

    All-with_value :
        (P : MemoryRow → Type 0) (x : Option Float) (r : MemoryRow)
        (rest : List (Float × MemoryRow))
        → P r
        → All (λ y. P y.1) rest
        → All (λ y. P y.1) (with_value env searches x r rest)
    All-with_value P none r rest k a = a
    All-with_value P (some x) r rest k a = (k, a)

    All-valued :
        (P : MemoryRow → Type 0) (f : MemoryRow → Option Float) (rows : List MemoryRow)
        → All P rows
        → All (λ x. P x.1) (valued env searches f rows)
    All-valued P f [] a = tt
    All-valued P f (r ∷ rs) (k, ks) = All-with_value P (f r) r _ k (All-valued P f rs ks)

    fts_candidates-Answers :
        (text : Text) (limit : ℕ) (w : World)
        → Allows w.tables
        → Answers Found w (fts_candidates env searches group_id user_id text limit false w)
    unfolding fts_candidates
    fts_candidates-Answers text limit w allows = elim (Bool-cases (is_empty (strip text))) [
      | inl blank ↦ rw blank (refl, tt, λ h. h)
      | inr filled ↦ rw filled (
          query-Answers Found _ w (
            All-map_of (λ (c : MemoryCandidate). Allowed c.memory) _ _
              (All-take_first (λ x. Allowed (as_record x.1)) limit _
                (All-sort_first (λ x. Allowed (as_record x.1)) _ _
                  (All-valued (λ r. Allowed (as_record r)) _ _
                    (searched_rows _ w.tables allows (λ r h. h)))))))
    ]

    All-with_id :
        (P : MemoryRow → Type 0) (id : ℕ) (x : Float) (rows : List MemoryRow)
        → All P rows
        → All (λ y. P y.1) (with_id env searches id x rows)
    All-with_id P id x [] a = tt
    All-with_id P id x (r ∷ rs) (k, ks) = elim (Bool-cases (r.id == id)) [
      | inl same ↦ rw same (k, All-with_id P id x rs ks)
      | inr other_id ↦ rw other_id (All-with_id P id x rs ks)
    ]

    All-distances :
        (P : MemoryRow → Type 0) (wanted : Vector) (vectors : List (ℕ × Vector))
        (rows : List MemoryRow)
        → All P rows
        → All (λ y. P y.1) (distances env searches wanted vectors rows)
    All-distances P wanted [] rows a = tt
    All-distances P wanted ((id, v) ∷ vs) rows a =
        All-append (λ y. P y.1) (with_id env searches id (searches.distance v wanted) rows) _
          (All-with_id P id (searches.distance v wanted) rows a) (All-distances P wanted vs rows a)

    limited-Found :
        (t : Memories) (limit : ℤ) (found : List (Float × MemoryRow))
        → All (λ y. Allowed (as_record y.1)) found
        → Fine Found t (unchanged env searches t (limited env searches limit found))
    limited-Found t (pos n) found a = (
      refl,
      All-map_of (λ (c : MemoryCandidate). Allowed c.memory) _ _
          (All-take_first (λ y. Allowed (as_record y.1)) n found a),
    )
    limited-Found t (negsuc n) found a = tt

    vector_candidates-Searched :
        (wanted : Vector) (model : Text) (limit : ℤ) (w : World)
        → Allows w.tables
        → Searched Found w
            (vector_candidates env searches group_id user_id wanted model limit false w)
    unfolding vector_candidates checked_statement
    vector_candidates-Searched wanted model limit w allows =
        elim (Bool-cases (is_empty wanted || is_empty model)) [
          | inl none_given ↦ rw none_given (refl, tt, λ h. h)
          | inr given ↦ rw given (
              sent_to-Searched Found w.database_url _ w (
                limited-Found w.tables limit _ (
                  All-sort_first (λ (y : Float × MemoryRow). Allowed (as_record y.1))
                    (by_distance env searches)
                    (distances env searches wanted (embedded env searches model w.tables.embeddings)
                      (keep (is_searched env searches false group_id user_id) w.tables.rows))
                    (All-distances (λ r. Allowed (as_record r)) wanted
                      (embedded env searches model w.tables.embeddings) _
                      (searched_rows _ w.tables allows (λ r h. h))))))
        ]

  module _ (rt : Runtime) (exact : ℤ → Option Float) (upstream : Upstream)
      (searches : Searches) where
    or_no-Answers :
        (w : World) (o : Attempt (List MemoryCandidate) × World)
        → Searched Found w o
        → Answers Found w (or_no_candidates o)
    or_no-Answers w (raise e, w') s = (s.0, tt, s.1)
    or_no-Answers w (return found, w') s = s

    search_vector-Answers :
        (user_id text : Text) (c : Option EmbeddingConfig) (w : World)
        → Allows searches user_id w.tables
        → Answers Found w
            (search_vector rt exact upstream env searches group_id user_id text false c w)
    search_vector-Answers user_id text none w allows = (refl, tt, λ h. h)
    search_vector-Answers user_id text (some c) w allows =
        or_no-Answers w _ (vector_candidates-Searched searches user_id _ c.model _ w allows)

    safe_vector_candidates-Answers :
        (user_id text : Text) (w : World)
        → Allows searches user_id w.tables
        → Answers Found w
            (safe_vector_candidates rt exact upstream env searches group_id user_id text false w)
    unfolding safe_vector_candidates
    safe_vector_candidates-Answers user_id text w allows =
        elim (Bool-cases (env_unless_off env (codes "MEMORY_VECTOR_RECALL_ENABLED") false)) [
          | inl on ↦ rw on (search_vector-Answers user_id text _ w allows)
          | inr off ↦ rw off (refl, tt, λ h. h)
        ]

    -- A list of scored memories.
    abbrev AreRanked : List (MemoryRow × MemoryScore) → Type 0
    AreRanked scored =
        All (λ (s : MemoryRow × MemoryScore). Allowed s.0) scored
        × Distinct (map (λ (s : MemoryRow × MemoryScore). s.0.id) scored)

    ranked-AreRanked :
        (now : ℕ) (request : ChatRequest) (limit : ℕ) (found : List MemoryCandidate)
        → Found found
        → AreRanked (ranked rt exact upstream env searches now request limit false found)
    unfolding ranked
    ranked-AreRanked now request limit found a =
        let scores : MemoryCandidate → MemoryRow × MemoryScore =
          λ c. (c.memory, memory_score now c request) in
        let eligible : MemoryCandidate → Bool = λ c. recall_eligible env c.memory in
        let merged = merge_from [] found in
        let of_score : MemoryRow × MemoryScore → ℕ = λ s. s.0.id in
        (
          All-take_first (λ (s : MemoryRow × MemoryScore). Allowed s.0) limit _
              (All-sort_first (λ (s : MemoryRow × MemoryScore). Allowed s.0) scores_before
                (map scores (keep eligible merged))
                (All-map_of (λ (s : MemoryRow × MemoryScore). Allowed s.0) scores
                  (keep eligible merged)
                  (All-keep_all (λ (c : MemoryCandidate). Allowed c.memory) eligible merged
                    (All-merge_from Allowed found [] a tt)))),
          take_first-Distinct of_score limit _ (
              sort_first-Distinct of_score scores_before (map scores (keep eligible merged)) (
                subst Distinct (sym (map-map_key scores of_score (keep eligible merged))) (
                  keep-Distinct (λ (c : MemoryCandidate). c.memory.id) eligible merged
                    (merge_from-Distinct found [] tt)))),
        )

    debug_recall-Answers :
        (request : ChatRequest) (text : Text) (limit : ℕ) (w : World)
        → string_id request.group_id ≡ group_id
        → Allows searches (string_id request.user_id) w.tables
        → Answers AreRanked w
            (debug_recall rt exact upstream env searches request text limit false w)
    unfolding debug_recall
    debug_recall-Answers request text limit w same allows =
        let user_id = string_id request.user_id in
        rw same (
          after-Answers Found AreRanked w _ _
            (keyword_candidates-Answers searches user_id text _ w allows)
            (λ words w1 e a.
              let allows1 = subst (Allows searches user_id) (sym e) allows in
              after-Answers Found AreRanked w1 _ _
                (fts_candidates-Answers searches user_id text _ w1 allows1)
                (λ texts w2 e2 b.
                  let allows2 = subst (Allows searches user_id) (sym e2) allows1 in
                  after-Answers Found AreRanked w2 _ _
                    (safe_vector_candidates-Answers user_id text w2 allows2)
                    (λ vectors w3 e3 c. (
                      refl,
                      ranked-AreRanked w3.clock.now request limit _ (
                          All-append (λ (d : MemoryCandidate). Allowed d.memory) words _ a
                            (All-append (λ (d : MemoryCandidate). Allowed d.memory) texts vectors b
                              c)),
                      λ h. h,
                    )))))

-- At most eight memories, none twice, each of a kind.
pub record IsRecall (Allowed : MemoryRow → Type 0) (rows : List MemoryRow) : Type 0 where
  pub short : length rows ≤ 8
  pub distinct : Distinct (map (λ (r : MemoryRow). r.id) rows)
  pub allowed : All Allowed rows

eight_at_most :
    (scored : List (MemoryRow × MemoryScore)) (n : ℕ)
    → length (map (λ (s : MemoryRow × MemoryScore). s.0) (take n scored)) ≤ n
eight_at_most scored zero = omega arith
eight_at_most [] (suc n) = omega arith
eight_at_most (s ∷ scored) (suc n) = omega (arith, eight_at_most scored n)

module _ (rt : Runtime) (exact : ℤ → Option Float) (upstream : Upstream) (env : Env)
    (searches : Searches) (request : ChatRequest) (text : Text) where
  recall_allowed :
      (Allowed : MemoryRow → Type 0) (w : World)
      → Allows env
          (string_id request.group_id)
          Allowed
          searches
          (string_id request.user_id)
          w.tables
      → Answers (IsRecall Allowed) w (recall rt exact upstream env searches request text w)
  unfolding recall
  recall_allowed Allowed w allows =
      let group_id = string_id request.group_id in
      after-Answers (AreRanked env group_id Allowed rt exact upstream searches) (IsRecall Allowed) w
        (debug_recall rt exact upstream env searches request text 50 false w) _
        (debug_recall-Answers env group_id Allowed rt exact upstream searches request text 50 w refl
          allows)
        (λ scored w' e a. (
          refl,
          record {
            short = eight_at_most scored 8;
            distinct =
                subst Distinct
                  (sym (
                    map-map_key (λ (s : MemoryRow × MemoryScore). s.0) (λ (r : MemoryRow). r.id)
                      (take 8 scored)))
                  (take_first-Distinct (λ (s : MemoryRow × MemoryScore). s.0.id) 8 scored a.1);
            allowed =
                All-map_of Allowed (λ (s : MemoryRow × MemoryScore). s.0) (take 8 scored)
                  (All-take_first (λ (s : MemoryRow × MemoryScore). Allowed s.0) 8 scored a.0);
          },
          λ h. h,
        ))

  all_may :
      (rows : List MemoryRow)
      → All
          (λ r.
            is_searched env searches false
                (string_id request.group_id)
                (string_id request.user_id)
                r
              ≡ true
            → MayRecall env (string_id request.group_id) (as_record r))
          rows
  all_may [] = tt
  all_may (r ∷ rs) = (
    searched_may env (string_id request.group_id) searches (string_id request.user_id) r,
    all_may rs,
  )

  -- Whatever the request and the environment (`MEMORY_RECALL_FINAL_LIMIT` is never read), the
  -- searches and the embedding model give, a recall changes no table, and
  -- gives at most eight memories, none twice, each active, eligible by its lifecycle, and either
  -- global or of the group that asks. It fails only where the database does: a failure of the
  -- embedding model, or of the search by vectors, costs those candidates alone.
  pub recall-Answers :
      (w : World)
      → Answers
          (IsRecall (MayRecall env (string_id request.group_id)))
          w
          (recall rt exact upstream env searches request text w)
  recall-Answers w =
      recall_allowed (MayRecall env (string_id request.group_id)) w (all_may w.tables.rows)

  -- The world after `delete_group` for a group.
  abbrev pub without_group : ℕ → Text → World → World
  without_group now gone w = record w {
    tables = record w.tables { rows = (delete_group now gone w.tables.rows).1 };
  }

  deleted_rows :
      (now : ℕ) (gone : Text) (rows : List MemoryRow)
      → All
          (λ r.
            is_searched env searches false
                (string_id request.group_id)
                (string_id request.user_id)
                r
              ≡ true
            → equals (as_record r).group_id gone ≡ false)
          (delete_group now gone rows).1
  unfolding delete_group update_where is_searched recall_eligible removed as_record
  deleted_rows now gone [] = tt
  deleted_rows now gone (r ∷ rs) = elim (Bool-cases (group_rows gone r)) [
    | inl taken ↦ rw taken (λ h. absurd (ground (arith, h)), deleted_rows now gone rs)
    | inr left_alone ↦ rw left_alone (λ h. ground (arith, h, left_alone), deleted_rows now gone rs)
  ]

  -- Once the memories of a group are deleted, no recall, of whatever group, user and text, gives a
  -- memory of that group.
  pub recall-delete_group :
      (now : ℕ) (gone : Text) (w : World)
      → Answers
          (All (λ r. equals r.group_id gone ≡ false))
          (without_group now gone w)
          (recall rt exact upstream env searches request text (without_group now gone w))
  recall-delete_group now gone w =
      Answers-map (IsRecall (λ r. equals r.group_id gone ≡ false))
        (All (λ r. equals r.group_id gone ≡ false)) (without_group now gone w) _
        (λ rows (given : IsRecall (λ r. equals r.group_id gone ≡ false) rows). given.allowed)
        (recall_allowed (λ r. equals r.group_id gone ≡ false) (without_group now gone w)
          (deleted_rows now gone w.tables.rows))

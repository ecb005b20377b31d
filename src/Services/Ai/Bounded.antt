-- ===== src/Services/Ai/Bounded.antt =====
-- brain-python/services/ai_runtime.py: what a prompt takes over from others.
use test_bot.Base.{
  All, [], leb, leb→le, length, length-append, length-take, refl, suc, take, true, zero, ◌++◌, ◌∷◌,
  ◌≡◌, ◌≢◌,
}
use test_bot.Text.{Text, codes, is_space, rstrip_by, rstrip_by-All, strip, strip_by-All}
use test_bot.Base.{ap, arith, Bool-cases, inl, inr, ℕ, ◌≤◌, ◌-◌}
use test_bot.Base.{if◌then◌else◌, is_empty}
use test_bot.Value.{Fields, Runtime, get, str, str_of}
use test_bot.Services.Ai.{bounded_text, or_value, recent_line}
use test_bot.Services.Ai.{bound_text, chat_completions_url, ends_with, one_line}

-- Neither a carriage return nor a line feed.
abbrev pub IsInLine : ℕ → Type 0
IsInLine c = (c ≢ 10) × (c ≢ 13)

one_line-All : (s : Text) → All IsInLine (one_line s)
one_line-All [] = tt
one_line-All (c ∷ cs) = (ground arith, one_line-All cs)

take-All : (n : ℕ) (s : Text) → All IsInLine s → All IsInLine (take n s)
take-All zero s h = tt
take-All (suc n) [] h = tt
take-All (suc n) (c ∷ cs) h = (h.0, take-All n cs h.1)

append-All : (s t : Text) → All IsInLine s → All IsInLine t → All IsInLine (s ++ t)
append-All [] t h k = k
append-All (c ∷ cs) t h k = (h.0, append-All cs t h.1 k)

length-rstrip_le : (s : Text) → length (rstrip_by is_space s) ≤ length s
unfolding rstrip_by
length-rstrip_le [] = omega arith
length-rstrip_le (c ∷ cs) = ground (arith, length-rstrip_le cs)

cut_length :
    (limit : ℕ) (text : Text)
    → 1 ≤ limit
    → length (rstrip_by is_space (take (limit - 1) text) ++ codes "…") ≤ limit
cut_length limit text h =
    let cut = take (limit - 1) text in
    omega (
      arith,
      h,
      length-append (rstrip_by is_space cut) (codes "…"),
      length-rstrip_le cut,
      length-take (limit - 1) text,
    )

-- A text that is bounded becomes one line within its limit, whatever the text is.
pub bound_text-IsInLine :
    (limit : ℕ) (raw : Text)
    → 1 ≤ limit
    → (length (bound_text limit raw) ≤ limit) × All IsInLine (bound_text limit raw)
unfolding bound_text
bound_text-IsInLine limit raw h =
    let text = strip (one_line raw) in
    let in_line = strip_by-All is_space IsInLine (one_line raw) (one_line-All raw) in
    elim (Bool-cases (leb (length text) limit)) [
      | inl short ↦ rw (short, bound_text) (leb→le (length text) limit short, in_line)
      | inr long ↦
          rw (long, bound_text)
            (
              cut_length limit text h,
              append-All (rstrip_by is_space (take (limit - 1) text)) (codes "…")
                  (rstrip_by-All is_space IsInLine (take (limit - 1) text)
                    (take-All (limit - 1) text in_line))
                  (ground arith),
            )
    ]

ends_with_append : (s suffix : Text) → ends_with (s ++ suffix) suffix ≡ true
unfolding ends_with
ends_with_append [] [] = refl
ends_with_append [] (c ∷ cs) = ground arith
ends_with_append (c ∷ cs) suffix = ground (arith, ends_with_append cs suffix)

append_assoc : (s t u : Text) → s ++ (t ++ u) ≡ (s ++ t) ++ u
append_assoc [] t u = refl
append_assoc (c ∷ cs) t u = ap (λ rest. c ∷ rest) (append_assoc cs t u)

abbrev completions : Text
completions = codes "/chat/completions"

chat_completions_url_ends : (s : Text) → ends_with (chat_completions_url s) completions ≡ true
unfolding chat_completions_url
chat_completions_url_ends s = elim (Bool-cases (ends_with s completions)) [
  | inl whole ↦ rw (whole, chat_completions_url) whole
  | inr part ↦ elim (Bool-cases (ends_with s (codes "/v1"))) [
    | inl version ↦ rw (part, version, chat_completions_url) (ends_with_append s completions)
    | inr host ↦
        rw (part, host, chat_completions_url, append_assoc s (codes "/v1") completions)
          (ends_with_append (s ++ codes "/v1") completions)
  ]
]

chat_completions_url_fixed :
    (s : Text) → ends_with s completions ≡ true → chat_completions_url s ≡ s
unfolding chat_completions_url
chat_completions_url_fixed s whole = rw (whole, chat_completions_url) refl

-- The address of the completions is found once: applied to its own result, the function keeps it.
pub chat_completions_url_idem :
    (base_url : Text)
    → chat_completions_url (chat_completions_url base_url) ≡ chat_completions_url base_url
chat_completions_url_idem base_url =
    chat_completions_url_fixed (chat_completions_url base_url) (chat_completions_url_ends base_url)

-- What a prompt quotes of a recent message, its sender included, is one line of at most 292
-- characters, whatever the names and texts of the message are.
pub recent_line-IsInLine :
    (rt : Runtime) (item : Fields)
    → All (λ line. (length line ≤ 292) × All IsInLine line) (recent_line rt item)
unfolding recent_line bounded_text
recent_line-IsInLine rt item =
    quoted
      (str_of rt (
        or_value
          (or_value (get (codes "sender") item)
            (or_value (get (codes "user_id") item) (str (codes "unknown"))))
          (str [])))
      (str_of rt (or_value (or_value (get (codes "text") item) (str [])) (str [])))
  where
    joined :
        (sender content : Text)
        → (length sender ≤ 48) × All IsInLine sender
        → (length content ≤ 240) × All IsInLine content
        → let line = codes "- " ++ (sender ++ (codes ": " ++ content)) in
          (length line ≤ 292) × All IsInLine line
    joined sender content s c = (
      omega (arith, s.0, c.0, length-append sender (codes ": " ++ content)),
      (
        ground arith,
        (
          ground arith,
          append-All sender (codes ": " ++ content) s.1 (ground arith, (ground arith, c.1)),
        ),
      ),
    )

    quoted :
        (name said : Text)
        → All
            (λ line. (length line ≤ 292) × All IsInLine line)
            (if is_empty (bound_text 240 said)
              then []
              else (codes "- " ++ (bound_text 48 name ++ (codes ": " ++ bound_text 240 said))) ∷ [])
    quoted name said = elim (Bool-cases (is_empty (bound_text 240 said))) [
      | inl nothing_said ↦ rw nothing_said tt
      | inr filled ↦ rw filled (
        joined (bound_text 48 name) (bound_text 240 said)
            (bound_text-IsInLine 48 name (omega arith))
            (bound_text-IsInLine 240 said (omega arith)),
        tt,
      )
    ]

-- ===== src/Text/Split.antt =====
-- `re.split` at runs of separators, `str.split`, `str.partition` and `str.join`.
use test_bot.Base.{ℕ, ◌≡◌, ◌≢◌, Bool, true, false, not, List, [], ◌∷◌, ◌++◌, arith}
use test_bot.Base.{◌==◌, nat_eq, if◌then◌else◌, is_empty, keep, All}
use test_bot.Text.Chars.{Text}

-- Whether the text begins with a character of the class.
abbrev starts_in : (ℕ → Bool) → Text → Bool
starts_in p [] = false
starts_in p (c ∷ cs) = p c

-- The pieces, the first of them extended by a character.
abbrev extend : ℕ → List Text → List Text
extend c [] = (c ∷ []) ∷ []
extend c (piece ∷ pieces) = (c ∷ piece) ∷ pieces

-- `re.split(r"[...]+", s)`: a run of separators is one boundary.
unfoldable pub split_runs : (ℕ → Bool) → Text → List Text
split_runs p [] = [] ∷ []
split_runs p (c ∷ cs) =
    let rest = split_runs p cs in
    if p c then (if starts_in p cs then rest else [] ∷ rest) else extend c rest

abbrev nonempty : Text → Bool
nonempty s = not (is_empty s)

-- `[part for part in re.split(r"[...]+", s) if part]`; with `is_space` it is `s.split()`.
unfoldable pub words_by : (ℕ → Bool) → Text → List Text
unfolding split_runs
words_by p s = keep nonempty (split_runs p s)

-- `s.partition(c)` for a character: what stands before it, whether it was found, what follows.
unfoldable pub partition : ℕ → Text → record { before : Text; found : Bool; after : Text }
partition c [] = record { before = []; found = false; after = [] }
partition c (d ∷ ds) =
    let rest = partition c ds in
    if d == c
    then record { before = []; found = true; after = ds }
    else record { before = d ∷ rest.before; found = rest.found; after = rest.after }

-- `s.split(c)` for a character.
unfoldable pub split_at : ℕ → Text → List Text
split_at c [] = [] ∷ []
split_at c (d ∷ ds) = let rest = split_at c ds in if d == c then [] ∷ rest else extend d rest

-- `sep.join(parts)`
unfoldable pub join : Text → List Text → Text
join sep [] = []
join sep (part ∷ []) = part
join sep (part ∷ next ∷ parts) = part ++ (sep ++ join sep (next ∷ parts))

-- No character of the class.
abbrev pub Free : (ℕ → Bool) → Text → Type 0
Free p = All (λ c. p c ≡ false)

-- A nonempty text without separators.
abbrev pub IsWord : (ℕ → Bool) → Text → Type 0
IsWord p w = (w ≢ []) × Free p w

module _ (p : ℕ → Bool) where
  extend-Free :
      (c : ℕ) (pieces : List Text)
      → p c ≡ false
      → All (Free p) pieces
      → All (Free p) (extend c pieces)
  extend-Free c [] h k = ((h, tt), tt)
  extend-Free c (piece ∷ pieces) h (k, ks) = ((h, k), ks)

  split_runs-Free : (s : Text) → All (Free p) (split_runs p s)
  unfolding split_runs
  split_runs-Free [] = (tt, tt)
  split_runs-Free (c ∷ cs) = ground (arith, split_runs-Free cs, extend-Free c (split_runs p cs))

  keep-IsWord : (pieces : List Text) → All (Free p) pieces → All (IsWord p) (keep nonempty pieces)
  keep-IsWord [] h = tt
  keep-IsWord ([] ∷ pieces) (k, ks) = keep-IsWord pieces ks
  keep-IsWord ((c ∷ cs) ∷ pieces) (k, ks) = (((λ e. cc), k), keep-IsWord pieces ks)

  pub words_by-IsWord : (s : Text) → All (IsWord p) (words_by p s)
  unfolding words_by
  words_by-IsWord s = keep-IsWord (split_runs p s) (split_runs-Free s)

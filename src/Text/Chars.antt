-- ===== src/Text/Chars.antt =====
-- Python's `str` as the list of its code points, with the character classes that the program uses.
use Prim.Native.Char.{code}
use Prim.Native.String.{String}
use test_bot.Base.{
  ℕ, ◌+◌, ◌≡◌, refl, Bool, true, false, ◌&&◌, ◌||◌, List, [], ◌∷◌, ◌++◌, leb, arith,
}
use test_bot.Base.{◌==◌, nat_eq, if◌then◌else◌, is_empty, All}

abbrev pub Text : Type 0
Text = List ℕ

-- A literal of the source.
abbrev pub codes : String → Text
codes String.[] = []
codes (String.◌∷◌ c s) = code c ∷ codes s

-- `str.isspace` of one character, which is also what `\s` matches.
unfoldable pub is_space : ℕ → Bool
is_space c =
    leb 9 c && leb c 13
    || leb 28 c && leb c 32
    || (c == 133 || c == 160)
    || (c == 0x1680 || leb 0x2000 c && leb c 0x200a)
    || (leb 0x2028 c && leb c 0x2029 || (c == 0x202f || c == 0x205f) || c == 0x3000)

-- `str.lower` of one character. The letters of ASCII, and the two letters outside ASCII whose
-- lower case holds an ASCII letter; other letters are kept.
unfoldable pub lower_char : ℕ → Text
lower_char c =
    if leb b'A' c && leb c b'Z'
    then (c + 32) ∷ []
    else if c == 0x130
    then b'i' ∷ 0x307 ∷ []
    else if c == 0x212a
    then b'k' ∷ []
    else c ∷ []

unfoldable pub lower : Text → Text
unfolding lower_char
lower [] = []
lower (c ∷ cs) = lower_char c ++ lower cs

-- `str.lstrip`, `str.rstrip` and `str.strip` with no argument, over any class of characters.
module _ (p : ℕ → Bool) where
  unfoldable pub lstrip_by : Text → Text
  lstrip_by [] = []
  lstrip_by (c ∷ cs) = if p c then lstrip_by cs else c ∷ cs

  unfoldable pub rstrip_by : Text → Text
  rstrip_by [] = []
  rstrip_by (c ∷ cs) = let rest = rstrip_by cs in if is_empty rest && p c then [] else c ∷ rest

  unfoldable pub strip_by : Text → Text
  unfolding lstrip_by rstrip_by
  strip_by s = rstrip_by (lstrip_by s)

abbrev pub strip : Text → Text
strip = strip_by is_space

-- `s[:n]`, `s[n:]` are `take`, `drop`. `s.startswith(prefix)`:
unfoldable pub starts_with : Text → Text → Bool
starts_with s [] = true
starts_with [] (p ∷ ps) = false
starts_with (c ∷ cs) (p ∷ ps) = c == p && starts_with cs ps

-- A text that neither begins nor ends with a character of the class.
module _ (p : ℕ → Bool) where
  abbrev pub NoLead : Text → Type 0
  NoLead [] = Unit
  NoLead (c ∷ cs) = p c ≡ false

  abbrev pub NoTrail : Text → Type 0
  NoTrail [] = Unit
  NoTrail (c ∷ []) = p c ≡ false
  NoTrail (c ∷ d ∷ cs) = NoTrail (d ∷ cs)

  lstrip_by-NoLead : (s : Text) → NoLead (lstrip_by p s)
  unfolding lstrip_by
  lstrip_by-NoLead [] = tt
  lstrip_by-NoLead (c ∷ cs) = ground (arith, lstrip_by-NoLead cs)

  pub rstrip_by-NoTrail : (s : Text) → NoTrail (rstrip_by p s)
  unfolding rstrip_by
  rstrip_by-NoTrail [] = tt
  rstrip_by-NoTrail (c ∷ cs) = ground (arith, rstrip_by-NoTrail cs)

  rstrip_by-NoLead : (s : Text) → NoLead s → NoLead (rstrip_by p s)
  unfolding rstrip_by
  rstrip_by-NoLead [] h = tt
  rstrip_by-NoLead (c ∷ cs) h = ground arith

  pub strip_by-NoLead : (s : Text) → NoLead (strip_by p s)
  unfolding strip_by
  strip_by-NoLead s = rstrip_by-NoLead (lstrip_by p s) (lstrip_by-NoLead s)

  pub strip_by-NoTrail : (s : Text) → NoTrail (strip_by p s)
  unfolding strip_by
  strip_by-NoTrail s = rstrip_by-NoTrail (lstrip_by p s)

  module _ (P : ℕ → Type 0) where
    lstrip_by-All : (s : Text) → All P s → All P (lstrip_by p s)
    unfolding lstrip_by
    lstrip_by-All [] h = tt
    lstrip_by-All (c ∷ cs) h = ground (arith, lstrip_by-All cs h.1)

    pub rstrip_by-All : (s : Text) → All P s → All P (rstrip_by p s)
    unfolding rstrip_by
    rstrip_by-All [] h = tt
    rstrip_by-All (c ∷ cs) h = ground (arith, rstrip_by-All cs h.1)

    pub strip_by-All : (s : Text) → All P s → All P (strip_by p s)
    unfolding strip_by
    strip_by-All s h = rstrip_by-All (lstrip_by p s) (lstrip_by-All s h)

  lstrip_by_fixed : (s : Text) → NoLead s → lstrip_by p s ≡ s
  unfolding lstrip_by
  lstrip_by_fixed [] h = refl
  lstrip_by_fixed (c ∷ cs) h = ground arith

  rstrip_by_fixed : (s : Text) → NoTrail s → rstrip_by p s ≡ s
  unfolding rstrip_by
  rstrip_by_fixed [] h = refl
  rstrip_by_fixed (c ∷ []) h = ground arith
  rstrip_by_fixed (c ∷ d ∷ cs) h = ground (arith, rstrip_by_fixed (d ∷ cs) h)

  pub strip_by_fixed : (s : Text) → NoLead s → NoTrail s → strip_by p s ≡ s
  unfolding strip_by
  strip_by_fixed s h k = ground (arith, lstrip_by_fixed s h, rstrip_by_fixed s k)

  pub strip_by_idem : (s : Text) → strip_by p (strip_by p s) ≡ strip_by p s
  strip_by_idem s = strip_by_fixed (strip_by p s) (strip_by-NoLead s) (strip_by-NoTrail s)

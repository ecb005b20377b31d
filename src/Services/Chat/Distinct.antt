-- ===== src/Services/Chat/Distinct.antt =====
-- brain-python/services/chat.py: `_dedupe_texts`.
use test_bot.Base.{
  Bool, List, [], contains, keep, list_eq, map, nat_eq, not, refl, true, ◌==◌, ◌∷◌, ◌≡◌,
}
use test_bot.Text.{Text, strip}
use test_bot.Base.Dict.{values}
use test_bot.Base.{sym, ap, ◌∙◌, arith, Bool-cases, inl, inr, is_empty}
use test_bot.Services.Chat.{dedupe_from, dedupe_texts, filled}

-- Each text at its first place.
unfoldable pub first_places : List Text → List Text
unfolding list_eq nat_eq
first_places [] = []
first_places (x ∷ xs) = x ∷ keep (λ y. not (y == x)) (first_places xs)

abbrev pub unseen : List Text → Text → Bool
unseen seen y = not (contains seen y)

pub keep_both :
    (x : Text) (seen : List Text) (xs : List Text)
    → keep (unseen (x ∷ seen)) xs ≡ keep (unseen seen) (keep (λ y. not (y == x)) xs)
keep_both x seen [] = refl
keep_both x seen (y ∷ ys) = ground (arith, keep_both x seen ys)

pub keep_seen :
    (x : Text) (seen : List Text) (xs : List Text)
    → contains seen x ≡ true
    → keep (unseen seen) (keep (λ y. not (y == x)) xs) ≡ keep (unseen seen) xs
keep_seen x seen [] known = refl
keep_seen x seen (y ∷ ys) known = ground (arith, keep_seen x seen ys known)

dedupe_from_lem :
    (seen values : List Text)
    → dedupe_from seen values ≡ keep (unseen seen) (first_places (filled (map strip values)))
unfolding dedupe_from first_places
dedupe_from_lem seen [] = refl
dedupe_from_lem seen (value ∷ values) =
    let tail = first_places (filled (map strip values)) in
    elim (Bool-cases (is_empty (strip value))) [
      | inl blank ↦ rw (blank, dedupe_from) (dedupe_from_lem seen values)
      | inr text ↦ elim (Bool-cases (contains seen (strip value))) [
        | inl known ↦
            rw (text, known, dedupe_from)
              (dedupe_from_lem seen values ∙ sym (keep_seen (strip value) seen tail known))
        | inr new ↦
            rw (text, new, dedupe_from)
              (ap (λ rest. strip value ∷ rest)
                (dedupe_from_lem (strip value ∷ seen) values ∙ keep_both (strip value) seen tail))
      ]
    ]

pub keep_all : (xs : List Text) → keep (unseen []) xs ≡ xs
keep_all [] = refl
keep_all (x ∷ xs) = ground (arith, keep_all xs)

-- `_dedupe_texts` strips the texts, drops the empty ones, and keeps each of the others at its
-- first place.
pub dedupe_texts_lem :
    (values : List Text) → dedupe_texts values ≡ first_places (filled (map strip values))
unfolding dedupe_texts
dedupe_texts_lem values = dedupe_from_lem [] values ∙ keep_all _

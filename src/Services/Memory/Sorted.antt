-- ===== src/Services/Memory/Sorted.antt =====
-- brain-python/services/memory.py: what its sorts and limits keep of the elements and of their distinct ids.
use test_bot.Base.{
  All, Bool, ap, Bool-cases, Distinct, List, [], arith, contains, false, inl, inr, keep, map,
  nat_eq, refl, suc, take, zero, ℕ, ◌++◌, ◌==◌, ◌∷◌, ◌≡◌,
}
use test_bot.Services.Memory.Recall.{insert_first, sort_first}

module _ {A : Type 0} (P : A → Type 0) where
  All-insert_first :
      (goes_first : A → A → Bool) (x : A) (ys : List A)
      → P x
      → All P ys
      → All P (insert_first goes_first x ys)
  unfolding insert_first
  All-insert_first goes_first x [] h a = (h, tt)
  All-insert_first goes_first x (y ∷ ys) h (k, ks) = elim (Bool-cases (goes_first x y)) [
    | inl before ↦ rw before (h, (k, ks))
    | inr behind_ ↦ rw behind_ (k, All-insert_first goes_first x ys h ks)
  ]

  pub All-sort_first :
      (goes_first : A → A → Bool) (xs : List A) → All P xs → All P (sort_first goes_first xs)
  unfolding sort_first
  All-sort_first goes_first [] a = tt
  All-sort_first goes_first (x ∷ xs) (k, ks) =
      All-insert_first goes_first x (sort_first goes_first xs) k (All-sort_first goes_first xs ks)

  pub All-take_first : (n : ℕ) (xs : List A) → All P xs → All P (take n xs)
  All-take_first zero xs a = tt
  All-take_first (suc n) [] a = tt
  All-take_first (suc n) (x ∷ xs) (k, ks) = (k, All-take_first n xs ks)

  pub All-keep_all : (p : A → Bool) (xs : List A) → All P xs → All P (keep p xs)
  All-keep_all p [] a = tt
  All-keep_all p (x ∷ xs) (k, ks) = elim (Bool-cases (p x)) [
    | inl kept ↦ rw kept (k, All-keep_all p xs ks)
    | inr dropped ↦ rw dropped (All-keep_all p xs ks)
  ]

  pub All-append : (xs ys : List A) → All P xs → All P ys → All P (xs ++ ys)
  All-append [] ys a b = b
  All-append (x ∷ xs) ys (k, ks) b = (k, All-append xs ys ks b)

pub All-map_of :
    {A B : Type 0} (P : B → Type 0) (f : A → B) (xs : List A)
    → All (λ x. P (f x)) xs
    → All P (map f xs)
All-map_of P f [] a = tt
All-map_of P f (x ∷ xs) (k, ks) = (k, All-map_of P f xs ks)

-- The ids of elements.
module _ {A : Type 0} (key : A → ℕ) where
  insert_first_new :
      (goes_first : A → A → Bool) (x : A) (other : ℕ) (ys : List A)
      → (other == key x) ≡ false
      → contains (map key ys) other ≡ false
      → contains (map key (insert_first goes_first x ys)) other ≡ false
  unfolding insert_first
  insert_first_new goes_first x other [] h k = ground arith
  insert_first_new goes_first x other (y ∷ ys) h k = elim (Bool-cases (goes_first x y)) [
    | inl before ↦ rw before (ground (arith, h, k))
    | inr behind_ ↦
        rw behind_ (ground (arith, k, insert_first_new goes_first x other ys h (ground (arith, k))))
  ]

  insert_first-Distinct :
      (goes_first : A → A → Bool) (x : A) (ys : List A)
      → contains (map key ys) (key x) ≡ false
      → Distinct (map key ys)
      → Distinct (map key (insert_first goes_first x ys))
  unfolding insert_first nat_eq
  insert_first-Distinct goes_first x [] new d = (refl, tt)
  insert_first-Distinct goes_first x (y ∷ ys) new (first, d) = elim (Bool-cases (goes_first x y)) [
    | inl before ↦ rw before (new, (first, d))
    | inr behind_ ↦ rw behind_ (
      insert_first_new goes_first x (key y) ys (ground (arith, new)) first,
      insert_first-Distinct goes_first x ys (ground (arith, new)) d,
    )
  ]

  sort_first_new :
      (goes_first : A → A → Bool) (xs : List A) (other : ℕ)
      → contains (map key xs) other ≡ false
      → contains (map key (sort_first goes_first xs)) other ≡ false
  unfolding sort_first
  sort_first_new goes_first [] other k = refl
  sort_first_new goes_first (x ∷ xs) other k =
      insert_first_new goes_first x other (sort_first goes_first xs) (ground (arith, k))
        (sort_first_new goes_first xs other (ground (arith, k)))

  pub sort_first-Distinct :
      (goes_first : A → A → Bool) (xs : List A)
      → Distinct (map key xs)
      → Distinct (map key (sort_first goes_first xs))
  unfolding sort_first
  sort_first-Distinct goes_first [] d = tt
  sort_first-Distinct goes_first (x ∷ xs) (new, d) =
      insert_first-Distinct goes_first x (sort_first goes_first xs)
        (sort_first_new goes_first xs (key x) new) (sort_first-Distinct goes_first xs d)

  take_first_new :
      (n : ℕ) (xs : List A) (other : ℕ)
      → contains (map key xs) other ≡ false
      → contains (map key (take n xs)) other ≡ false
  take_first_new zero xs other k = refl
  take_first_new (suc n) [] other k = refl
  take_first_new (suc n) (x ∷ xs) other k = ground (arith, k, take_first_new n xs other)

  pub take_first-Distinct :
      (n : ℕ) (xs : List A) → Distinct (map key xs) → Distinct (map key (take n xs))
  take_first-Distinct zero xs d = tt
  take_first-Distinct (suc n) [] d = tt
  take_first-Distinct (suc n) (x ∷ xs) (new, d) =
      (take_first_new n xs (key x) new, take_first-Distinct n xs d)

  keep_new :
      (p : A → Bool) (xs : List A) (other : ℕ)
      → contains (map key xs) other ≡ false
      → contains (map key (keep p xs)) other ≡ false
  keep_new p [] other k = refl
  keep_new p (x ∷ xs) other k = ground (arith, k, keep_new p xs other)

  pub keep-Distinct :
      (p : A → Bool) (xs : List A) → Distinct (map key xs) → Distinct (map key (keep p xs))
  keep-Distinct p [] d = tt
  keep-Distinct p (x ∷ xs) (new, d) = elim (Bool-cases (p x)) [
    | inl kept ↦ rw kept (keep_new p xs (key x) new, keep-Distinct p xs d)
    | inr dropped ↦ rw dropped (keep-Distinct p xs d)
  ]

pub map-map_key :
    {A B : Type 0} (f : A → B) (key : B → ℕ) (xs : List A)
    → map key (map f xs) ≡ map (λ x. key (f x)) xs
map-map_key f key [] = refl
map-map_key f key (x ∷ xs) = ap (λ ks. key (f x) ∷ ks) (map-map_key f key xs)

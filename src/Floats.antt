-- ===== src/Floats.antt =====
-- Python's arithmetic on `float`: each operation is exact and then rounded to the nearest double,
-- half to even. Zero has no sign here.
use test_bot.Base.{
  ℕ, zero, suc, ◌+◌, ◌-◌, ◌*◌, ◌/◌, ◌%◌, ◌^◌, Bool, true, false, not, Option, none, some, [], ◌∷◌,
  ◌++◌, ltb, leb, if◌then◌else◌, nat_eq,
}
use test_bot.Base.Int.{ℤ, pos, negsuc}
use test_bot.Text.{Text, codes, show_nat}
use test_bot.Value.{Float, nan, pos_inf, neg_inf, fin, ltb_float}

-- `n / d` to the nearest integer, half to even.
unfoldable pub round_div : ℕ → ℕ → ℕ
unfolding nat_eq
round_div n d =
    let q = n / d in
    let r = n % d in if ltb (2 * r) d then q else if ltb d (2 * r) then q + 1 else q + q % 2

-- How often `n / d` is halved until it is below 2^53: the exponent of its last place.
unfoldable pub exponent : ℕ → ℕ → ℕ → ℕ
exponent zero n d = 0
exponent (suc fuel) n d = elim (ltb n (2 ^ 53 * d)) [
  | true ↦ 0
  | false ↦ suc (exponent fuel n (2 * d))
]

-- The double next to `n / d`, both in units of 2^-1074; `none` where that is too large. A number
-- below 2^2099 units is halved at most 2046 times, so 2100 is enough fuel.
unfoldable pub nearest : ℕ → ℕ → Option ℕ
unfolding round_div exponent
nearest n d =
    let place = 2 ^ exponent 2100 n d in
    let rounded = round_div n (d * place) * place in
    elim (leb (d * 2 ^ 2099) n) [
      | true ↦ none
      | false ↦ if leb (2 ^ 2098) rounded then none else some rounded
    ]

abbrev unit_power : ℕ
unit_power = 2 ^ 1074

-- A ratio with a sign.
unfoldable pub ratio : Bool → ℕ → ℕ → Float
unfolding nearest
ratio negative n d = elim (nearest n d) [
  | none ↦ if negative then neg_inf else pos_inf
  | some zero ↦ fin (pos 0)
  | some (suc k) ↦ if negative then fin (negsuc k) else fin (pos (suc k))
]

abbrev pub is_negative : ℤ → Bool
is_negative (pos n) = false
is_negative (negsuc n) = true

abbrev pub size : ℤ → ℕ
size (pos n) = n
size (negsuc n) = suc n

-- `float(n)`; `none` is the `OverflowError`.
unfoldable pub float_of_int : ℤ → Option Float
unfolding ratio
float_of_int n = elim (ratio (is_negative n) (size n * unit_power) 1) [
  | fin k ↦ some (fin k)
  | _ ↦ none
]

-- A literal `n / d`, and the quotient of two integers.
unfoldable pub quotient : ℕ → ℕ → Float
unfolding ratio
quotient n d = ratio false (n * unit_power) d

-- The sum of two integers of either sign.
abbrev pub sum_int : ℤ → ℤ → ℤ
sum_int (pos m) (pos n) = pos (m + n)
sum_int (negsuc m) (negsuc n) = negsuc (m + n + 1)
sum_int (pos m) (negsuc n) = if leb (n + 1) m then pos (m - (n + 1)) else negsuc (n - m)
sum_int (negsuc m) (pos n) = if leb (m + 1) n then pos (n - (m + 1)) else negsuc (m - n)

abbrev pub minus : Float → Float
minus nan = nan
minus pos_inf = neg_inf
minus neg_inf = pos_inf
minus (fin (pos zero)) = fin (pos zero)
minus (fin (pos (suc n))) = fin (negsuc n)
minus (fin (negsuc n)) = fin (pos (suc n))

-- `a + b`
unfoldable pub add : Float → Float → Float
unfolding ratio
add nan b = nan
add a nan = nan
add pos_inf neg_inf = nan
add neg_inf pos_inf = nan
add pos_inf b = pos_inf
add a pos_inf = pos_inf
add neg_inf b = neg_inf
add a neg_inf = neg_inf
add (fin m) (fin n) = let s = sum_int m n in ratio (is_negative s) (size s) 1

-- `a - b`
abbrev pub subtract : Float → Float → Float
subtract a b = add a (minus b)

abbrev pub same_sign : ℤ → ℤ → Bool
same_sign (pos m) (pos n) = true
same_sign (negsuc m) (negsuc n) = true
same_sign m n = false

-- An infinity times a number.
abbrev infinite : Bool → ℤ → Float
infinite negative (pos zero) = nan
infinite negative (pos (suc n)) = if negative then neg_inf else pos_inf
infinite negative (negsuc n) = if negative then pos_inf else neg_inf

-- `a * b`
unfoldable pub multiply : Float → Float → Float
unfolding ratio
multiply nan b = nan
multiply a nan = nan
multiply pos_inf pos_inf = pos_inf
multiply pos_inf neg_inf = neg_inf
multiply neg_inf pos_inf = neg_inf
multiply neg_inf neg_inf = pos_inf
multiply pos_inf (fin n) = infinite false n
multiply neg_inf (fin n) = infinite true n
multiply (fin m) pos_inf = infinite false m
multiply (fin m) neg_inf = infinite true m
multiply (fin m) (fin n) = ratio (not (same_sign m n)) (size m * size n) unit_power

-- `a / d` for a positive integer `d`, which a double holds exactly.
unfoldable pub divide : Float → ℕ → Float
unfolding ratio
divide (fin m) d = ratio (is_negative m) (size m) d
divide a d = a

abbrev pub zero_float : Float
zero_float = fin (pos 0)

abbrev pub one : Float
one = fin (pos (2 ^ 1074))

-- `a <= b`
unfoldable pub leb_float : Float → Float → Bool
unfolding ltb_float
leb_float nan b = false
leb_float a nan = false
leb_float a b = not (ltb_float b a)

-- `max(a, b)`
abbrev pub max_float : Float → Float → Float
max_float a b = if ltb_float a b then b else a

-- `_clamp`, of a float.
unfoldable pub clamp : Float → Float
unfolding ltb_float
clamp x = if ltb_float x zero_float then zero_float else if ltb_float one x then one else x

-- `round(x, 4)`
unfoldable pub round4 : Float → Float
unfolding round_div ratio
round4 (fin k) =
    let scaled = round_div (size k * 10000) unit_power in
    ratio (is_negative k) (scaled * unit_power) 10000
round4 x = x

abbrev two_digits : ℕ → Text
two_digits n = (n / 10 + b'0') ∷ (n % 10 + b'0') ∷ []

-- `f"{x:.2f}"`
unfoldable pub show_2f : Float → Text
unfolding round_div show_nat
show_2f nan = codes "nan"
show_2f pos_inf = codes "inf"
show_2f neg_inf = codes "-inf"
show_2f (fin k) =
    let scaled = round_div (size k * 100) unit_power in
    (if is_negative k then codes "-" else [])
    ++ (show_nat (scaled / 100) ++ (codes "." ++ two_digits (scaled % 100)))

-- `int(x)` of a number that is finite: towards zero.
abbrev pub truncate : ℤ → ℤ
truncate (pos n) = pos (n / unit_power)
truncate (negsuc n) = let q = suc n / unit_power in elim q [ zero ↦ pos 0 | suc m ↦ negsuc m ]

-- ===== src/Text/Number.antt =====
-- `str(n)` and `int(s)` for integers in base ten.
use test_bot.Base.{
  ℕ, zero, suc, ◌+◌, ◌-◌, ◌*◌, ◌/◌, ◌%◌, Bool, true, false, ◌&&◌, Option, none, some,
}
use test_bot.Base.{◌==◌, nat_eq, if◌then◌else◌, leb, [], ◌∷◌}
use test_bot.Base.Int.{ℤ, pos, negsuc, negate}
use test_bot.Text.Chars.{Text, strip, strip_by, is_space}

-- The digits of `n` in front of `acc`; each step divides by ten, so `n + 1` steps are enough.
show_digits : ℕ → ℕ → Text → Text
show_digits zero n acc = acc
show_digits (suc fuel) n acc =
    let digits : Text = (b'0' + n % 10) ∷ acc in
    let more = show_digits fuel (n / 10) digits in if n / 10 == 0 then digits else more

unfoldable pub show_nat : ℕ → Text
unfolding show_digits
show_nat n = show_digits (suc n) n []

unfoldable pub show_int : ℤ → Text
unfolding show_nat
show_int (pos n) = show_nat n
show_int (negsuc n) = b'-' ∷ show_nat (suc n)

-- A decimal digit of ASCII.
abbrev pub is_digit : ℕ → Bool
is_digit c = leb b'0' c && leb c b'9'

-- Digits, with single underscores between them; the flag tells that a digit has just been read.
read_digits : ℕ → Bool → Text → Option ℕ
read_digits acc after [] = if after then some acc else none
read_digits acc after (c ∷ cs) = elim (is_digit c) [
  | true ↦ read_digits (acc * 10 + (c - b'0')) true cs
  | false ↦ elim (c == b'_' && after) [ true ↦ read_digits acc false cs | false ↦ none ]
]

read_nat : Text → Option ℕ
unfolding read_digits
read_nat s = read_digits 0 false s

read_signed : Text → Option ℤ
unfolding read_nat
read_signed [] = none
read_signed (c ∷ cs) =
    if c == b'-'
    then elim (read_nat cs) [ none ↦ none | some n ↦ some (negate n) ]
    else elim (read_nat (if c == b'+' then cs else c ∷ cs)) [ none ↦ none | some n ↦ some (pos n) ]

-- `int(s)`; `none` is the `ValueError`.
unfoldable pub int_of : Text → Option ℤ
unfolding read_signed strip_by is_space
int_of s = read_signed (strip s)

-- ===== src/Tests/Numbers.antt =====
-- The arithmetic of doubles at concrete inputs.
use test_bot.Base.{◌≡◌, refl}
use test_bot.Text.{codes, show_nat}
use test_bot.Floats.{add, multiply, quotient, round4, show_2f}

sums : add (quotient 1 10) (quotient 2 10) ≡ quotient 30000000000000004 100000000000000000
unfolding add quotient
sums = refl

products : multiply (quotient 1 10) (quotient 3 10) ≡ quotient 3 100
unfolding multiply quotient
products = refl

rounded : round4 (quotient 12345 1000000) ≡ quotient 123 10000
unfolding round4 quotient
rounded = refl

shown : show_2f (quotient 125 1000) ≡ codes "0.12"
unfolding show_2f quotient show_nat
shown = refl

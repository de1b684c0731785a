-- ===== src/Base/Bits.antt =====
-- A byte shifted up is joined with a byte by `|`, and `& 0xFF` takes the low byte.
use Prim.Native.Nat.{
  ℕ, zero, suc, ◌+◌, ◌*◌, ◌/◌, ◌%◌, ◌≤◌, ◌<◌, min, max, bit_and, bit_or, digits, bit_and-bitwise,
  bit_or-bitwise,
}
use mathlib.Core.Path.{◌≡◌, refl, ap, ◌∙◌}
use native.Mathlib.Omega.{arith}

-- The digit recursion of a bitwise operation does not depend on its fuel, once there is enough.
digits_fuel :
    (rest : ℕ → ℕ) (op : ℕ → ℕ → ℕ) (n m a b : ℕ)
    → a ≤ n
    → a ≤ m
    → digits rest op n a b ≡ digits rest op m a b
digits_fuel rest op zero zero a b p q = refl
digits_fuel rest op zero (suc m) zero b p q = refl
digits_fuel rest op zero (suc m) (suc a) b p q = absurd (omega arith)
digits_fuel rest op (suc n) zero zero b p q = refl
digits_fuel rest op (suc n) zero (suc a) b p q = absurd (omega arith)
digits_fuel rest op (suc n) (suc m) zero b p q = refl
digits_fuel rest op (suc n) (suc m) (suc a) b p q =
    omega (arith, digits_fuel rest op n m (suc a / 2) (b / 2) (omega arith) (omega arith))

zero-or : (b : ℕ) → bit_or 0 b ≡ b
zero-or b = bit_or-bitwise 0 b

or_halves : (a b : ℕ) → bit_or a b ≡ bit_or (a / 2) (b / 2) * 2 + max (a % 2) (b % 2)
or_halves zero b = omega (arith, zero-or b, zero-or (b / 2))
or_halves (suc a) b = omega (
  arith,
  bit_or-bitwise (suc a) b,
  bit_or-bitwise (suc a / 2) (b / 2),
  digits_fuel (λ r. r) max a (suc a / 2) (suc a / 2) (b / 2) (omega arith) (omega arith),
)

or-zero_upto : (n a : ℕ) → a ≤ n → bit_or a 0 ≡ a
or-zero_upto n zero h = refl
or-zero_upto zero (suc a) h = absurd (omega arith)
or-zero_upto (suc n) (suc a) h =
    omega (arith, or_halves (suc a) 0, or-zero_upto n (suc a / 2) (omega arith))

abbrev doubled : ℕ → ℕ → ℕ
doubled zero a = a
doubled (suc k) a = 2 * doubled k a

or-doubled : (k a b : ℕ) → b < doubled k 1 → bit_or (doubled k a) b ≡ doubled k a + b
or-doubled zero a zero h = omega (arith, or-zero_upto a a (omega arith))
or-doubled zero a (suc b) h = absurd (omega arith)
or-doubled (suc k) a b h =
    let half : 2 * doubled k a / 2 ≡ doubled k a = omega arith in
    or_halves (2 * doubled k a) b
    ∙ omega (arith, ap (λ t. bit_or t (b / 2)) half, or-doubled k a (b / 2) (omega arith))

pub or-high_byte : (a b : ℕ) → b < 256 → bit_or (a * 256) b ≡ a * 256 + b
or-high_byte a b h =
    let shifted : a * 256 ≡ doubled 8 a = omega arith in rw shifted (or-doubled 8 a b h)

zero-and : (b : ℕ) → bit_and 0 b ≡ 0
zero-and b = bit_and-bitwise 0 b

and_halves : (a b : ℕ) → bit_and a b ≡ bit_and (a / 2) (b / 2) * 2 + min (a % 2) (b % 2)
and_halves zero b = omega (arith, zero-and b, zero-and (b / 2))
and_halves (suc a) b = omega (
  arith,
  bit_and-bitwise (suc a) b,
  bit_and-bitwise (suc a / 2) (b / 2),
  digits_fuel (λ r. zero) min a (suc a / 2) (suc a / 2) (b / 2) (omega arith) (omega arith),
)

and-zero_upto : (n a : ℕ) → a ≤ n → bit_and a 0 ≡ 0
and-zero_upto n zero h = refl
and-zero_upto zero (suc a) h = absurd (omega arith)
and-zero_upto (suc n) (suc a) h =
    omega (arith, and_halves (suc a) 0, and-zero_upto n (suc a / 2) (omega arith))

and-nibble : (a : ℕ) → bit_and a 15 ≡ a % 16
and-nibble a = omega (
  arith,
  and_halves a 15,
  and_halves (a / 2) 7,
  and_halves (a / 2 / 2) 3,
  and_halves (a / 2 / 2 / 2) 1,
  and-zero_upto (a / 2 / 2 / 2 / 2) (a / 2 / 2 / 2 / 2) (omega arith),
)

pub and-low_byte : (a : ℕ) → bit_and a 255 ≡ a % 256
and-low_byte a = omega (
  arith,
  and_halves a 255,
  and_halves (a / 2) 127,
  and_halves (a / 2 / 2) 63,
  and_halves (a / 2 / 2 / 2) 31,
  and-nibble (a / 2 / 2 / 2 / 2),
)

-- ===== src/Prelude/Bits.antt =====
-- The bit operations of C as arithmetic. A native operation stands for a recursion on binary
-- digits with fuel; the fuel is dropped here and one equation is kept for the lowest digit.
use Prim.Native.Nat.{ℕ, zero, suc, ◌+◌, ◌-◌, ◌*◌, ◌/◌, ◌%◌, ◌^◌, ◌≤◌, ◌<◌, min, max, differ}
use Prim.Native.Nat.{bit_and, bit_or, bit_xor, digits, bitwise}
use Prim.Native.Nat.{bit_and-bitwise, bit_or-bitwise, bit_xor-bitwise}
use mathlib.Core.Path.{◌≡◌, refl, ap}
use mathlib.Core.Bool.{Bool, true, false, ◌&&◌}
use native.Mathlib.Nat.{pow-suc, one-le-pow}
use native.Mathlib.Omega.{arith}
use vericonnect_agent.Prelude.Tests.{◌==◌, ltb}

module _ (z : ℕ → ℕ) (f : ℕ → ℕ → ℕ) where
  -- Any fuel from `a` on gives the same digits.
  enough_fuel : (n a b : ℕ) (m : ℕ) → a ≤ n → a ≤ m → digits z f n a b ≡ digits z f m a b
  enough_fuel zero zero b zero p q = refl
  enough_fuel zero zero b (suc m) p q = refl
  enough_fuel (suc n) zero b zero p q = refl
  enough_fuel (suc n) zero b (suc m) p q = refl
  enough_fuel zero (suc a) b m p q = absurd (omega arith)
  enough_fuel (suc n) (suc a) b zero p q = absurd (omega arith)
  enough_fuel (suc n) (suc a) b (suc m) p q =
      omega (arith, enough_fuel n (suc a / 2) (b / 2) m (omega arith) (omega arith))

  lowest_digit :
      (a b : ℕ)
      → bitwise z f (suc a) b ≡ bitwise z f (suc a / 2) (b / 2) * 2 + f (suc a % 2) (b % 2)
  lowest_digit a b =
      omega (arith, enough_fuel a (suc a / 2) (b / 2) (suc a / 2) (omega arith) (omega arith))

and_digit : (a b : ℕ) → bit_and a b ≡ bit_and (a / 2) (b / 2) * 2 + min (a % 2) (b % 2)
and_digit zero b = simp bit_and-bitwise (omega arith)
and_digit (suc a) b = simp bit_and-bitwise (lowest_digit (λ y. 0) min a b)

-- The lowest digit of an inclusive or is the larger of the two.
or_digit : (a b : ℕ) → bit_or a b ≡ bit_or (a / 2) (b / 2) * 2 + max (a % 2) (b % 2)
or_digit zero b = simp bit_or-bitwise (omega arith)
or_digit (suc a) b = omega (
  arith,
  bit_or-bitwise (suc a) b,
  bit_or-bitwise (suc a / 2) (b / 2),
  lowest_digit (λ y. y) max a b,
)

-- Exclusive or of two binary digits, as arithmetic.
differ-mod : (x y : ℕ) → x < 2 → y < 2 → differ x y ≡ (x + y) % 2
differ-mod zero y p q = omega arith
differ-mod (suc zero) zero p q = refl
differ-mod (suc zero) (suc zero) p q = refl
differ-mod (suc zero) (suc (suc y)) p q = absurd (omega arith)
differ-mod (suc (suc x)) y p q = absurd (omega arith)

xor_digit : (a b : ℕ) → bit_xor a b ≡ bit_xor (a / 2) (b / 2) * 2 + (a + b) % 2
xor_digit zero b = simp bit_xor-bitwise (omega arith)
xor_digit (suc a) b = omega (
  arith,
  bit_xor-bitwise (suc a) b,
  bit_xor-bitwise (suc a / 2) (b / 2),
  lowest_digit (λ y. y) differ a b,
  differ-mod (suc a % 2) (b % 2) (omega arith) (omega arith),
)

or_zero_upto : (n a : ℕ) → a ≤ n → bit_or a 0 ≡ a
or_zero_upto n zero h = refl
or_zero_upto zero (suc a) h = absurd (omega arith)
or_zero_upto (suc n) (suc a) h =
    omega (arith, or_digit (suc a) 0, or_zero_upto n (suc a / 2) (omega arith))

and_zero_upto : (n a : ℕ) → a ≤ n → bit_and a 0 ≡ 0
and_zero_upto n zero h = refl
and_zero_upto zero (suc a) h = absurd (omega arith)
and_zero_upto (suc n) (suc a) h =
    omega (arith, and_digit (suc a) 0, and_zero_upto n (suc a / 2) (omega arith))

shifted-suc : (q k : ℕ) → q * 2 ^ suc k ≡ 2 * (q * 2 ^ k)
shifted-suc q k = omega (arith, ap (λ (t : ℕ). q * t) (pow-suc 2 k))

-- `(q << k) | r` is a sum when `r` fits in `k` bits.
pub bit_or_sum : (k q r : ℕ) → r < 2 ^ k → bit_or (q * 2 ^ k) r ≡ q * 2 ^ k + r
bit_or_sum zero q r h = ground (arith, or_zero_upto q q)
bit_or_sum (suc k) q r h = ground (
  arith,
  or_digit (q * 2 ^ suc k) r,
  shifted-suc q k,
  pow-suc 2 k,
  bit_or_sum k q (r / 2) (omega (arith, pow-suc 2 k)),
)

and_parts : (k q r : ℕ) → r < 2 ^ k → bit_and (q * 2 ^ k + r) (2 ^ k - 1) ≡ r
and_parts zero q r h = ground (arith, and_zero_upto q q)
and_parts (suc k) q r h = ground (
  arith,
  and_digit (q * 2 ^ suc k + r) (2 ^ suc k - 1),
  shifted-suc q k,
  pow-suc 2 k,
  one-le-pow k 2,
  and_parts k q (r / 2) (omega (arith, pow-suc 2 k)),
)

-- `a & (2^k - 1)` keeps the low `k` bits.
pub bit_and_low : (k a : ℕ) → bit_and a (2 ^ k - 1) ≡ a % 2 ^ k
bit_and_low k a = ground (arith, one-le-pow k 2, and_parts k (a / 2 ^ k) (a % 2 ^ k))

-- A mask applied twice is gone, at every width.
xor_upto : (n a b : ℕ) → a ≤ n → b ≤ n → bit_xor (bit_xor a b) b ≡ a
xor_upto zero zero zero p q = refl
xor_upto zero (suc a) b p q = absurd (omega arith)
xor_upto zero zero (suc b) p q = absurd (omega arith)
xor_upto (suc n) a b p q =
    let low = xor_digit a b in
    let half : bit_xor a b / 2 ≡ bit_xor (a / 2) (b / 2) = omega arith in
    let again = xor_digit (bit_xor a b) b in
    ground (arith, xor_upto n (a / 2) (b / 2) (omega arith) (omega arith))

pub bit_xor_twice : (a b : ℕ) → bit_xor (bit_xor a b) b ≡ a
bit_xor_twice a b = xor_upto (a + b) a b (omega arith) (omega arith)

pub bit_xor-lt : (k a b : ℕ) → a < 2 ^ k → b < 2 ^ k → bit_xor a b < 2 ^ k
bit_xor-lt zero zero zero p q = omega arith
bit_xor-lt zero (suc a) b p q = absurd (omega arith)
bit_xor-lt zero zero (suc b) p q = absurd (omega arith)
bit_xor-lt (suc k) a b p q = omega (
  arith,
  pow-suc 2 k,
  xor_digit a b,
  bit_xor-lt k (a / 2) (b / 2) (omega (arith, pow-suc 2 k)) (omega (arith, pow-suc 2 k)),
)

-- Every value below a small bound, checked by evaluation.
unfoldable pub every_below : ℕ → (ℕ → Bool) → Bool
every_below zero holds = true
every_below (suc top) holds = every_below top holds && holds top

pub every_below-at :
    (top : ℕ) (holds : ℕ → Bool) (i : ℕ) → every_below top holds ≡ true → i < top → holds i ≡ true
unfolding every_below
every_below-at zero holds i all below = absurd (omega arith)
every_below-at (suc top) holds i all below = ground (arith, every_below-at top holds i)

-- Equal as Booleans.
abbrev iff : Bool → Bool → Bool
iff true b = b
iff false true = false
iff false false = true

iff_eq : (a b : Bool) → iff a b ≡ true → a ≡ b
iff_eq a b h = ground arith

top_bit_table : every_below 256 (λ x. iff (bit_and x 0x80 == 0) (ltb x 128)) ≡ true
unfolding every_below
top_bit_table = refl

-- The top bit of a byte is clear exactly below 128.
pub top_bit : (x : ℕ) → x < 256 → (bit_and x 0x80 == 0) ≡ ltb x 128
top_bit x h = iff_eq _ _ (every_below-at 256 _ x top_bit_table h)

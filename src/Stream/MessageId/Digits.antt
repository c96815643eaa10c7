-- ===== src/Stream/MessageId/Digits.antt =====
-- The high bit of a number, by `&` and `|` with a power of two, as arithmetic.
use gorums_ata.Base.{
  ℕ, zero, suc, ◌+◌, ◌*◌, ◌/◌, ◌%◌, ◌^◌, ◌≤◌, ◌<◌, ◌≡◌, refl, ap, arith, leb, if◌then◌else◌,
}
use Prim.Native.Nat.{bit_and, bit_or, digits, min, max, bit_and-bitwise, bit_or-bitwise}
use native.Mathlib.Nat.{pow-suc}

-- More fuel than the first number needs makes no difference.
digits-fuel :
    (z : ℕ → ℕ) (f : ℕ → ℕ → ℕ) (k l x y : ℕ) → x ≤ k → x ≤ l → digits z f k x y ≡ digits z f l x y
digits-fuel z f (suc k) (suc l) (suc x) y p q =
    ap (λ (d : ℕ). d * 2 + f (suc x % 2) (y % 2))
      (digits-fuel z f k l (suc x / 2) (y / 2) (omega arith) (omega arith))
digits-fuel z f zero l (suc x) y p q = absurd (omega arith)
digits-fuel z f (suc k) zero (suc x) y p q = absurd (omega arith)
digits-fuel z f zero zero zero y p q = refl
digits-fuel z f zero (suc l) zero y p q = refl
digits-fuel z f (suc k) zero zero y p q = refl
digits-fuel z f (suc k) (suc l) zero y p q = refl

and-digit : (x y : ℕ) → bit_and x y ≡ 2 * bit_and (x / 2) (y / 2) + min (x % 2) (y % 2)
and-digit zero y = simp bit_and-bitwise (omega arith)
and-digit (suc x) y = simp bit_and-bitwise (
    omega (
      arith,
      digits-fuel (λ _. 0) min x (suc x / 2) (suc x / 2) (y / 2) (omega arith) (omega arith),
    ))

or-digit : (x y : ℕ) → bit_or x y ≡ 2 * bit_or (x / 2) (y / 2) + max (x % 2) (y % 2)
or-digit zero y = simp bit_or-bitwise (omega arith)
or-digit (suc x) y = simp bit_or-bitwise (
    omega (
      arith,
      digits-fuel (λ b. b) max x (suc x / 2) (suc x / 2) (y / 2) (omega arith) (omega arith),
    ))

and-zero : (n x : ℕ) → x ≤ n → bit_and x 0 ≡ 0
and-zero n zero h = refl
and-zero zero (suc x) h = absurd (omega arith)
and-zero (suc n) (suc x) h =
    omega (arith, and-digit (suc x) 0, and-zero n (suc x / 2) (omega arith))

or-zero : (n x : ℕ) → x ≤ n → bit_or x 0 ≡ x
or-zero n zero h = refl
or-zero zero (suc x) h = absurd (omega arith)
or-zero (suc n) (suc x) h = omega (arith, or-digit (suc x) 0, or-zero n (suc x / 2) (omega arith))

-- Below `2 ^ (k + 1)` the mask `2 ^ k` shows whether the number has its high bit, and sets it.
pub and-high : (k x : ℕ) → x < 2 ^ suc k → bit_and x (2 ^ k) ≡ (if leb (2 ^ k) x then 2 ^ k else 0)
and-high zero x h = ground (arith, and-digit x 1, and-zero (x / 2) (x / 2) (omega arith))
and-high (suc k) x h = ground (
  arith,
  and-digit x (2 ^ suc k),
  pow-suc 2 k,
  pow-suc 2 (suc k),
  and-high k (x / 2) (omega (arith, pow-suc 2 k, pow-suc 2 (suc k))),
)

pub or-high :
    (k x : ℕ) → x < 2 ^ suc k → bit_or x (2 ^ k) ≡ (if leb (2 ^ k) x then x else x + 2 ^ k)
or-high zero x h = ground (arith, or-digit x 1, or-zero (x / 2) (x / 2) (omega arith))
or-high (suc k) x h = ground (
  arith,
  or-digit x (2 ^ suc k),
  pow-suc 2 k,
  pow-suc 2 (suc k),
  or-high k (x / 2) (omega (arith, pow-suc 2 k, pow-suc 2 (suc k))),
)

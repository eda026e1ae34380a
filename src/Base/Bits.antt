-- ===== src/Base/Bits.antt =====
-- `x & (2 ^ k - 1)` is `x % 2 ^ k`, at every width: the native operation has no laws at variables
-- but the recursion over binary digits that it stands for.
use Prim.Native.Nat.{bit_and, min, digits, bit_and-bitwise}
use mathlib.Core.Path.{◌≡◌, refl, ap, sym, ◌∙◌}
use Prim.Native.Nat.{ℕ, zero, suc, ◌+◌, ◌-◌, ◌*◌, ◌/◌, ◌%◌, ◌^◌, ◌≤◌, ◌<◌, ◌∣◌}
use native.Mathlib.Nat.{
  two-pow-succ, mul-add-mod_self_right, mod-eq_of_lt, mod-lt, div-add-mod', dvd_refl,
  dvd-mul_right_of_dvd, dvd-mod_iff, dvd_of_mod-eq-zero, mod-eq-zero_of_dvd, pow-suc,
}
use native.Mathlib.Omega.{arith}

-- The binary digits of `a & b`, as far as the bound `n` on `a` says that there are any.
abbrev common : ℕ → ℕ → ℕ → ℕ
common n a b = digits (λ d. zero) min n a b

-- Any bound will do.
common_bound : (m n a b : ℕ) → a ≤ m → a ≤ n → common m a b ≡ common n a b
common_bound zero zero a b p q = refl
common_bound zero (suc n) zero b p q = refl
common_bound zero (suc n) (suc a) b p q = absurd (omega arith)
common_bound (suc m) zero zero b p q = refl
common_bound (suc m) zero (suc a) b p q = absurd (omega arith)
common_bound (suc m) (suc n) zero b p q = refl
common_bound (suc m) (suc n) (suc a) b p q =
    omega (arith, common_bound m n (suc a / 2) (b / 2) (omega arith) (omega arith))

low_digit : (a b : ℕ) → bit_and a b ≡ bit_and (a / 2) (b / 2) * 2 + min (a % 2) (b % 2)
low_digit zero b = omega (arith, bit_and-bitwise 0 b, bit_and-bitwise 0 (b / 2))
low_digit (suc a) b = omega (
  arith,
  bit_and-bitwise (suc a) b,
  bit_and-bitwise (suc a / 2) (b / 2),
  common_bound (suc a / 2) a (suc a / 2) (b / 2) (omega arith) (omega arith),
)

bit_and_nothing : (n a : ℕ) → a ≤ n → bit_and a 0 ≡ 0
bit_and_nothing n zero h = bit_and-bitwise 0 0
bit_and_nothing zero (suc a) h = absurd (omega arith)
bit_and_nothing (suc n) (suc a) h =
    omega (arith, low_digit (suc a) 0, bit_and_nothing n (suc a / 2) (omega arith))

pub pow_pos : (k : ℕ) → 0 < 2 ^ k
pow_pos zero = omega arith
pow_pos (suc k) = omega (arith, two-pow-succ k, pow_pos k)

-- Two steps of division by digits are one.
mod_double : (x s : ℕ) → 0 < s → x / 2 % s * 2 + x % 2 ≡ x % (s + s)
mod_double x s h = sym (
    ap (λ n. n % (s + s)) whole
    ∙ mul-add-mod_self_right (x / 2 / s) (s + s) low
    ∙ mod-eq_of_lt small)
  where
    low : ℕ
    low = x / 2 % s * 2 + x % 2

    whole : x ≡ x / 2 / s * (s + s) + low
    whole = omega (arith, div-add-mod' (x / 2) s)

    small : low < s + s
    small = omega (arith, mod-lt (x / 2) h)

pub bit_and_mask : (k x : ℕ) → bit_and x (2 ^ k - 1) ≡ x % 2 ^ k
bit_and_mask zero x = omega (arith, bit_and_nothing x x)
bit_and_mask (suc k) x = rw two-pow-succ (
    omega (
      arith,
      low_digit x (2 ^ k + 2 ^ k - 1),
      ap (bit_and (x / 2)) half,
      bit_and_mask k (x / 2),
      mod_double x (2 ^ k) (pow_pos k),
      pow_pos k,
    ))
  where
    half : (2 ^ k + 2 ^ k - 1) / 2 ≡ 2 ^ k - 1
    half = omega (arith, pow_pos k)

pow-dvd-pow : (d n o : ℕ) → d + o ≡ n → 2 ^ o ∣ 2 ^ n
pow-dvd-pow zero n o e = let same : o ≡ n = omega arith in rw same (dvd_refl (2 ^ n))
pow-dvd-pow (suc d) zero o e = absurd (omega arith)
pow-dvd-pow (suc d) (suc n) o e =
    rw (pow-suc 2 n) (dvd-mul_right_of_dvd (2 ^ o) (pow-dvd-pow d n o (omega arith)) 2)

-- The low n bits of a number show whether the number is a multiple of a smaller power of two.
pub low_bits-aligned : (n o p : ℕ) → o ≤ n → p % 2 ^ n % 2 ^ o ≡ 0 → p % 2 ^ o ≡ 0
low_bits-aligned n o p h e =
    mod-eq-zero_of_dvd (2 ^ o) (
      (dvd-mod_iff (2 ^ o) (pow-dvd-pow (n - o) n o (omega arith))).0
        (dvd_of_mod-eq-zero (2 ^ o) e))

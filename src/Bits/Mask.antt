-- ===== src/Bits/Mask.antt =====
-- `&` with a run of ones, and `|` of fields that do not overlap, as arithmetic at every width.
use Prim.Native.Nat.{bit_or-bitwise}
use native.Mathlib.Nat.{
  pow-suc, one-le-pow, mod-eq_of_lt, mod-lt, add-mul-mod_self_left, div-add-mod, div-div-eq-div-mul,
  pow-succ', mul-one, div-one,
}
use go_ublksrv.Base.{
  ℕ, zero, suc, ◌+◌, ◌-◌, ◌*◌, ◌/◌, ◌%◌, ◌^◌, ◌<◌, bit_and, bit_or, ◌≡◌, sym, ap, arith,
}
use go_ublksrv.Bits.Step.{bit_and_step, bit_or_step, bit_and-zero}

pub mod_unique : (a n q r : ℕ) → a ≡ r + n * q → r < n → a % n ≡ r
mod_unique a n q r e h = rw (e, add-mul-mod_self_left r n q) (mod-eq_of_lt h)

-- Halving a remainder by an even number.
mod-half : (a p : ℕ) → 0 < p → a % (p * 2) ≡ a / 2 % p * 2 + a % 2
mod-half a p h =
    mod_unique a (p * 2) (a / 2 / p) (a / 2 % p * 2 + a % 2) (omega (arith, div-add-mod (a / 2) p))
      (omega (arith, mod-lt (a / 2) h))

pub two_pow_pos : (k : ℕ) → 0 < 2 ^ k
two_pow_pos k = one-le-pow k 2 (omega arith)

mul-pow-suc : (q k : ℕ) → q * 2 ^ suc k ≡ q * 2 ^ k * 2
mul-pow-suc q k = omega (arith, ap (λ (t : ℕ). q * t) (pow-suc 2 k))

-- A mask of `k` low ones is the remainder by `2 ^ k`.
pub bit_and-low : (k a : ℕ) → bit_and a (2 ^ k - 1) ≡ a % 2 ^ k
bit_and-low zero a = omega (arith, bit_and-zero a)
bit_and-low (suc k) a =
    let half : (2 ^ suc k - 1) / 2 ≡ 2 ^ k - 1 = omega (arith, pow-suc 2 k, two_pow_pos k) in
    let step : bit_and a (2 ^ suc k - 1) ≡ bit_and (a / 2) (2 ^ k - 1) * 2 + a % 2 =
      rw (bit_and_step a (2 ^ suc k - 1), half) (omega (arith, pow-suc 2 k, two_pow_pos k)) in
    rw (step, bit_and-low k (a / 2), pow-suc 2 k) (sym (mod-half a (2 ^ k) (two_pow_pos k)))

div-pow-suc : (a k : ℕ) → a / 2 ^ suc k ≡ a / 2 / 2 ^ k
div-pow-suc a k = rw (pow-succ' 2 k) (sym (div-div-eq-div-mul a 2 (2 ^ k)))

-- A mask whose `k` low bits are clear.
pub bit_and-shifted : (k a m : ℕ) → bit_and a (m * 2 ^ k) ≡ bit_and (a / 2 ^ k) m * 2 ^ k
bit_and-shifted zero a m = rw (mul-one m, div-one a) (sym (mul-one (bit_and a m)))
bit_and-shifted (suc k) a m =
    let half : m * 2 ^ suc k / 2 ≡ m * 2 ^ k = omega (arith, mul-pow-suc m k) in
    let rest : bit_and a (m * 2 ^ suc k) ≡ bit_and (a / 2) (m * 2 ^ k) * 2 =
      rw (bit_and_step a (m * 2 ^ suc k), half) (omega (arith, mul-pow-suc m k)) in
    rw (rest, bit_and-shifted k (a / 2) m, div-pow-suc a k)
      (sym (mul-pow-suc (bit_and (a / 2 / 2 ^ k) m) k))

-- `& ~(2 ^ k - 1)` on a word of `k + j` bits drops the remainder.
pub bit_and-high : (k j a : ℕ) → bit_and a ((2 ^ j - 1) * 2 ^ k) ≡ a / 2 ^ k % 2 ^ j * 2 ^ k
bit_and-high k j a = rw (bit_and-shifted k a (2 ^ j - 1), bit_and-low j (a / 2 ^ k))

-- `r | (q << k)` is a sum when `r` fits `k` bits.
pub bit_or-fields : (k r q : ℕ) → r < 2 ^ k → bit_or r (q * 2 ^ k) ≡ r + q * 2 ^ k
bit_or-fields zero r q h =
    let e : r ≡ 0 = omega arith in rw e (omega (arith, bit_or-bitwise 0 (q * 1)))
bit_or-fields (suc k) r q h =
    let half : q * 2 ^ suc k / 2 ≡ q * 2 ^ k = omega (arith, mul-pow-suc q k) in
    let fits : r / 2 < 2 ^ k = omega (arith, pow-suc 2 k) in
    rw (bit_or_step r (q * 2 ^ suc k), half, bit_or-fields k (r / 2) q fits)
      (omega (arith, mul-pow-suc q k))

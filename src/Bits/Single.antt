-- ===== src/Bits/Single.antt =====
-- A test of one bit.
use native.Mathlib.Nat.{one-mul}
use go_ublksrv.Base.{ℕ, ◌*◌, ◌/◌, ◌%◌, ◌^◌, bit_and, ◌≡◌, ◌⊎◌, inl, inr, not, arith, ◌==◌}
use go_ublksrv.Bits.Test.{has}
use go_ublksrv.Bits.Mask.{bit_and-low, bit_and-shifted, two_pow_pos}

bit_and-bit : (k f : ℕ) → bit_and f (2 ^ k) ≡ f / 2 ^ k % 2 * 2 ^ k
bit_and-bit k f =
    let one : bit_and f (1 * 2 ^ k) ≡ f / 2 ^ k % 2 * 2 ^ k =
      rw (bit_and-shifted k f 1, bit_and-low 1 (f / 2 ^ k)) in
    rw one-mul at one

parity : (n : ℕ) → (n % 2 ≡ 0) ⊎ (n % 2 ≡ 1)
parity n = grind arith

pub has-bit : (k f : ℕ) → has f (2 ^ k) ≡ not (f / 2 ^ k % 2 == 0)
unfolding has
has-bit k f = elim (parity (f / 2 ^ k)) [
  | inl e ↦ rw (bit_and-bit k f, e) (ground arith)
  | inr e ↦ rw (bit_and-bit k f, e) (ground (arith, two_pow_pos k))
]

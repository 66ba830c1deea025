-- ===== src/Bits/Test.antt =====
-- The C condition `flags & mask`, and how it reads through `|`, `&` and `& ~`.
use go_ublksrv.Base.{
  ℕ, zero, suc, ◌-◌, ◌/◌, ◌%◌, ◌^◌, ◌≤◌, min, bit_and, bit_or, ◌≡◌, sym, arith, Bool, false, not,
  ◌||◌, ◌==◌,
}
use go_ublksrv.Bits.Step.{
  bit_and_step, bit_or-half, bit_or-parity, bit_and-half, bit_and-parity, bit_and-zero,
}

-- `flags & mask` as a condition.
unfoldable pub has : ℕ → ℕ → Bool
has flags mask = not (bit_and flags mask == 0)

-- `flags & ~mask` on 32-bit words.
unfoldable pub clear : ℕ → ℕ → ℕ
clear flags mask = bit_and flags (2 ^ 32 - 1 - mask)

has_step : (f m : ℕ) → has f m ≡ (has (f / 2) (m / 2) || not (min (f % 2) (m % 2) == 0))
unfolding has
has_step f m = ground (arith, bit_and_step f m)

pub has-zero : (f : ℕ) → has f 0 ≡ false
unfolding has
has-zero f = ground (arith, bit_and-zero f)

low : ℕ → ℕ → Bool
low a b = not (min (a % 2) (b % 2) == 0)

low-or : (f g m : ℕ) → low (bit_or f g) m ≡ (low f m || low g m)
unfolding low
low-or f g m = ground (arith, bit_or-parity f g)

has-or_below : (n f g m : ℕ) → m ≤ n → has (bit_or f g) m ≡ (has f m || has g m)
unfolding low
has-or_below n f g zero h = ground (arith, has-zero (bit_or f g), has-zero f, has-zero g)
has-or_below zero f g (suc m) h = absurd (omega arith)
has-or_below (suc n) f g (suc m) h =
    rw
      (
        has_step (bit_or f g) (suc m),
        has_step f (suc m),
        has_step g (suc m),
        bit_or-half f g,
        has-or_below n (f / 2) (g / 2) (suc m / 2) (omega arith),
      )
      (ground (arith, low-or f g (suc m)))

pub has-or : (f g m : ℕ) → has (bit_or f g) m ≡ (has f m || has g m)
has-or f g m = has-or_below m f g m (omega arith)

bit_and_assoc_below : (n f g m : ℕ) → m ≤ n → bit_and (bit_and f g) m ≡ bit_and f (bit_and g m)
bit_and_assoc_below n f g zero h =
    rw (bit_and-zero (bit_and f g), bit_and-zero g) (sym (bit_and-zero f))
bit_and_assoc_below zero f g (suc m) h = absurd (omega arith)
bit_and_assoc_below (suc n) f g (suc m) h =
    rw
      (
        bit_and_step (bit_and f g) (suc m),
        bit_and-half f g,
        bit_and_step f (bit_and g (suc m)),
        bit_and-half g (suc m),
        bit_and_assoc_below n (f / 2) (g / 2) (suc m / 2) (omega arith),
      )
      (omega (arith, bit_and-parity f g, bit_and-parity g (suc m)))

pub bit_and_assoc : (f g m : ℕ) → bit_and (bit_and f g) m ≡ bit_and f (bit_and g m)
bit_and_assoc f g m = bit_and_assoc_below m f g m (omega arith)

-- Where the mask is a numeral, the right side computes.
pub has-clear : (f c m : ℕ) → has (clear f c) m ≡ has f (bit_and (2 ^ 32 - 1 - c) m)
unfolding has clear
has-clear f c m = rw (bit_and_assoc f (2 ^ 32 - 1 - c) m)

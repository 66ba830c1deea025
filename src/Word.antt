-- ===== src/Word.antt =====
-- Machine integers of the C code. An `int` is its 32-bit two's-complement pattern, a number below
-- 2 ^ 32, so that `-k` is `minus k`; unsigned types are numbers with their wrap-around written out.
use go_ublksrv.Base.{ℕ, ◌+◌, ◌-◌, ◌%◌, ◌^◌, Bool, ◌&&◌, ltb, leb}

abbrev pub u16 : ℕ → ℕ
u16 n = n % 2 ^ 16

abbrev pub u32 : ℕ → ℕ
u32 n = n % 2 ^ 32

abbrev pub u64 : ℕ → ℕ
u64 n = n % 2 ^ 64

-- The `int` that is `-k`, for `0 < k ≤ 2 ^ 31`.
abbrev pub minus : ℕ → ℕ
minus k = 2 ^ 32 - k

-- `x < 0` for an `int`.
abbrev pub is_neg : ℕ → Bool
is_neg x = leb (2 ^ 31) x

-- `x > 0` for an `int`.
abbrev pub is_pos : ℕ → Bool
is_pos x = ltb 0 x && ltb x (2 ^ 31)

-- Linux error numbers (errno.h).
abbrev pub eintr : ℕ
eintr = 4

abbrev pub enomem : ℕ
enomem = 12

abbrev pub enodev : ℕ
enodev = 19

abbrev pub einval : ℕ
einval = 22

abbrev pub etime : ℕ
etime = 62

abbrev pub eopnotsupp : ℕ
eopnotsupp = 95

-- `a < b` for two `int`s.
abbrev pub int_lt : ℕ → ℕ → Bool
int_lt a b = ltb (u32 (a + 2 ^ 31)) (u32 (b + 2 ^ 31))

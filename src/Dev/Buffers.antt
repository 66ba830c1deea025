-- ===== src/Dev/Buffers.antt =====
-- Where the driver's descriptors are mapped, and the rounding to pages.
use native.Mathlib.Nat.{
  add-zero, add-suc, mul-one, pow-suc, mod-eq_of_lt, div-lt_iff_lt-mul, mul-mod_left, div-add-mod,
  mod-lt, pow-le-pow_right, mul-le-mul_right, mul-le-mul,
}
use go_ublksrv.Base.{
  zero, suc, sym, ap, ◌∙◌, ℕ, ◌+◌, ◌-◌, ◌*◌, ◌/◌, ◌%◌, ◌^◌, ◌≤◌, ◌<◌, ◌≡◌, arith, bit_and,
  if◌then◌else◌,
}
use go_ublksrv.Bits.{bit_and-high, two_pow_pos}
use go_ublksrv.Word.{u32, u64, is_neg}

abbrev pub sizeof_io_desc : ℕ
sizeof_io_desc = 24

abbrev pub ublk_max_queue_depth : ℕ
ublk_max_queue_depth = 4096

abbrev pub max_nr_hw_queues : ℕ
max_nr_hw_queues = 32

abbrev pub ublksrv_cmd_buf_offset : ℕ
ublksrv_cmd_buf_offset = 0

-- `round_up(val, rnd)` at a 32-bit unsigned `rnd`.
unfoldable pub round_up : (val rnd : ℕ) → ℕ
round_up val rnd = bit_and (u32 (val + (rnd - 1))) (2 ^ 32 - 1 - (rnd - 1))

-- `round_up` at the 64-bit `rnd` of a `sizeof`.
unfoldable pub round_up64 : (val rnd : ℕ) → ℕ
round_up64 val rnd = bit_and (u64 (val + (rnd - 1))) (2 ^ 64 - 1 - (rnd - 1))

unfoldable pub ublksrv_queue_cmd_buf_sz : (page_sz q_depth : ℕ) → ℕ
unfolding round_up
ublksrv_queue_cmd_buf_sz page_sz q_depth = round_up (u32 (q_depth * sizeof_io_desc)) page_sz

-- An `int`. The product is a constant below 2 ^ 32, so its 64-bit sum wraps as the 32-bit one.
unfoldable pub queue_max_cmd_buf_sz : (page_sz : ℕ) → ℕ
unfolding round_up
queue_max_cmd_buf_sz page_sz = round_up (ublk_max_queue_depth * sizeof_io_desc) page_sz

-- The offset at which a queue maps its descriptors: a product of two `int`s, which wraps, and is
-- extended by its sign to the `unsigned long` `off`.
unfoldable pub cmd_buf_off : (page_sz q_id : ℕ) → ℕ
unfolding queue_max_cmd_buf_sz
cmd_buf_off page_sz q_id =
    let product = u32 (ublksrv_cmd_buf_offset + q_id * queue_max_cmd_buf_sz page_sz) in
    if is_neg product then product + (2 ^ 64 - 2 ^ 32) else product

-- The offset of a tag's descriptor in the mapped buffer.
unfoldable pub ublksrv_get_iod : (tag : ℕ) → ℕ
ublksrv_get_iod tag = tag * sizeof_io_desc

pub record Rounded (val rnd up : ℕ) : Type 0 where
  pub whole : up % rnd ≡ 0
  pub above : val ≤ up
  pub near : up < val + rnd

later_starts : (i j size step : ℕ) → size ≤ step → i < j → 0 + i * step + size ≤ 0 + j * step
later_starts i j size step h lt = grind arith

pow-add : (j k : ℕ) → 2 ^ (j + k) ≡ 2 ^ j * 2 ^ k
pow-add j zero = rw (add-zero, mul-one)
pow-add j (suc k) =
    rw (add-suc j k)
      (omega (arith, pow-suc 2 (j + k), pow-add j k, ap (λ (t : ℕ). 2 ^ j * t) (pow-suc 2 k)))

word_split : (k : ℕ) → k ≤ 32 → 2 ^ (32 - k) * 2 ^ k ≡ 2 ^ 32
word_split k h =
    let e : 32 - k + k ≡ 32 = omega arith in sym (pow-add (32 - k) k) ∙ ap (λ (t : ℕ). 2 ^ t) e

mask_of : (k : ℕ) → k ≤ 32 → 2 ^ 32 - 1 - (2 ^ k - 1) ≡ (2 ^ (32 - k) - 1) * 2 ^ k
mask_of k h =
    let top : 2 ^ (32 - k) ≡ 2 ^ (32 - k) - 1 + 1 = omega (arith, two_pow_pos (32 - k)) in
    omega (arith, word_split k h, two_pow_pos k, ap (λ (t : ℕ). t * 2 ^ k) top)

-- Dropping the remainder of a word.
round_down :
    (x k : ℕ) → k ≤ 32 → x < 2 ^ 32 → bit_and x (2 ^ 32 - 1 - (2 ^ k - 1)) ≡ x / 2 ^ k * 2 ^ k
round_down x k h fits =
    let small : x / 2 ^ k < 2 ^ (32 - k) =
      (div-lt_iff_lt-mul (two_pow_pos k)).1 (omega (arith, word_split k h)) in
    rw (mask_of k h, bit_and-high k (32 - k) x, mod-eq_of_lt small)

round_up-eq :
    (val k : ℕ)
    → k ≤ 31
    → val + 2 ^ k ≤ 2 ^ 32
    → round_up val (2 ^ k) ≡ (val + (2 ^ k - 1)) / 2 ^ k * 2 ^ k
unfolding round_up
round_up-eq val k h fits =
    let x = val + (2 ^ k - 1) in
    let e : u32 x ≡ x = omega (arith, two_pow_pos k) in
    rw e (round_down x k (omega arith) (omega (arith, two_pow_pos k)))

-- At a power of two the macro gives the least multiple that is not below the value: it is one, it
-- is not below, and it is less than one step above.
pub round_up-Rounded :
    (val k : ℕ) → k ≤ 31 → val + 2 ^ k ≤ 2 ^ 32 → Rounded val (2 ^ k) (round_up val (2 ^ k))
round_up-Rounded val k h fits =
    let x = val + (2 ^ k - 1) in
    let e = round_up-eq val k h fits in
    record {
      whole = rw e (mul-mod_left (x / 2 ^ k) (2 ^ k));
      above = rw e (omega (arith, div-add-mod x (2 ^ k), mod-lt x (two_pow_pos k), two_pow_pos k));
      near = rw e (omega (arith, div-add-mod x (2 ^ k), mod-lt x (two_pow_pos k), two_pow_pos k));
    }

div_mono : (a b n : ℕ) → 0 < n → a ≤ b → a / n ≤ b / n
div_mono a b n pos le =
    let below : b < (b / n + 1) * n = (div-lt_iff_lt-mul pos).0 (omega arith) in
    let goal : a / n < b / n + 1 = (div-lt_iff_lt-mul pos).1 (omega arith) in omega arith

round_up_mono :
    (a b k : ℕ) → k ≤ 31 → a ≤ b → b + 2 ^ k ≤ 2 ^ 32 → round_up a (2 ^ k) ≤ round_up b (2 ^ k)
round_up_mono a b k h le fits =
    rw (round_up-eq a k h (omega arith), round_up-eq b k h fits)
      (mul-le-mul_right (2 ^ k)
        (div_mono (a + (2 ^ k - 1)) (b + (2 ^ k - 1)) (2 ^ k) (two_pow_pos k) (omega arith)))

-- The `int` product does not overflow.
cmd_buf_off-fits :
    (k q_id : ℕ)
    → k ≤ 26
    → q_id < max_nr_hw_queues
    → cmd_buf_off (2 ^ k) q_id ≡ 0 + q_id * queue_max_cmd_buf_sz (2 ^ k)
unfolding cmd_buf_off
cmd_buf_off-fits k q_id h few =
    let page : 2 ^ k ≤ 2 ^ 26 = pow-le-pow_right (omega arith) h in
    let near =
      (round_up-Rounded (ublk_max_queue_depth * sizeof_io_desc) k (omega arith)
        (omega arith)).near in
    let size : queue_max_cmd_buf_sz (2 ^ k) ≤ 2 ^ 26 + 98304 =
      unfold queue_max_cmd_buf_sz in omega (arith, near) in
    let small : q_id * queue_max_cmd_buf_sz (2 ^ k) ≤ 31 * (2 ^ 26 + 98304) =
      (let few' : q_id ≤ 31 = omega (arith, few) in mul-le-mul few' size) in
    ground (arith, small)

-- On pages of 2 ^ k bytes, up to 2 ^ 26, at a depth of at most 4096 and for the queues that
-- `__queues` has room for: each slot's descriptor lies in the part that its queue has mapped, and that
-- part ends before the part of any later queue begins.
pub cmd_bufs_apart :
    (k depth q_id later tag : ℕ)
    → k ≤ 26
    → depth ≤ ublk_max_queue_depth
    → tag < depth
    → q_id < later
    → later < max_nr_hw_queues
    → (ublksrv_get_iod tag + sizeof_io_desc ≤ ublksrv_queue_cmd_buf_sz (2 ^ k) depth)
      × (cmd_buf_off (2 ^ k) q_id + ublksrv_queue_cmd_buf_sz (2 ^ k) depth
          ≤ cmd_buf_off (2 ^ k) later)
unfolding ublksrv_get_iod ublksrv_queue_cmd_buf_sz queue_max_cmd_buf_sz
cmd_bufs_apart k depth q_id later tag h d t q few =
    let h' : k ≤ 31 = omega (arith, h) in
    let size : u32 (depth * sizeof_io_desc) ≡ depth * sizeof_io_desc = omega arith in
    let page : 2 ^ k ≤ 2 ^ 31 = pow-le-pow_right (omega arith) h' in
    let sz = ublksrv_queue_cmd_buf_sz (2 ^ k) depth in
    let max_sz = queue_max_cmd_buf_sz (2 ^ k) in
    let rounded : sz ≡ round_up (depth * sizeof_io_desc) (2 ^ k) =
      unfold ublksrv_queue_cmd_buf_sz in rw size in
    let above : depth * sizeof_io_desc ≤ sz =
      rw size ((round_up-Rounded (depth * sizeof_io_desc) k h' (omega arith)).above) in
    let fits : sz ≤ max_sz = rw size (
      round_up_mono (depth * sizeof_io_desc) (ublk_max_queue_depth * sizeof_io_desc) k h'
        (omega arith) (omega arith)) in
    (
      omega arith,
      rw (cmd_buf_off-fits k q_id h (omega (arith, q, few)), cmd_buf_off-fits k later h few)
          (later_starts q_id later sz max_sz fits q),
    )

-- ===== src/UserData/Laws.antt =====
-- What `build_user_data` packs, and what its three readers give back.
use go_ublksrv.Base.{
  ℕ, ◌+◌, ◌*◌, ◌/◌, ◌%◌, ◌^◌, ◌<◌, ◌≤◌, ◌≡◌, ◌⊎◌, ◌↔◌, not, some, none, arith, ◌==◌,
}
use go_ublksrv.Bits.{bit_and-low, has-bit, bit_or-fields}
use go_ublksrv.Word.{u32, u64}
use go_ublksrv.UserData.{build_user_data, user_data_to_tag, user_data_to_op, is_target_io}

-- The word as a sum: of the target's data the low eight bits are kept.
abbrev pub packed : (tag op tgt_data mark : ℕ) → ℕ
packed tag op tgt_data mark = tag + op * 2 ^ 16 + tgt_data % 2 ^ 8 * 2 ^ 24 + mark % 2 * 2 ^ 63

module _ (tag op tgt_data mark : ℕ) where
  pub build-packed :
      tag < 2 ^ 16
      → op < 2 ^ 8
      → tgt_data < 2 ^ 16
      → build_user_data tag op tgt_data mark ≡ some (packed tag op tgt_data mark)
  unfolding build_user_data
  build-packed p q r =
      let shifted_op : u32 (op * 2 ^ 16) ≡ op * 2 ^ 16 = omega arith in
      let shifted_data : u32 (tgt_data * 2 ^ 24) ≡ tgt_data % 2 ^ 8 * 2 ^ 24 = omega arith in
      let shifted_mark : u64 (mark * 2 ^ 63) ≡ mark % 2 * 2 ^ 63 = omega arith in
      ground (
        arith,
        bit_or-fields 16 tag op,
        bit_or-fields 24 (tag + op * 2 ^ 16) (tgt_data % 2 ^ 8),
        bit_or-fields 63 (tag + op * 2 ^ 16 + tgt_data % 2 ^ 8 * 2 ^ 24) (mark % 2),
      )

  pub build-fits :
      {u : ℕ}
      → build_user_data tag op tgt_data mark ≡ some u
      → (tag < 2 ^ 16) × (op < 2 ^ 8) × (tgt_data < 2 ^ 16)
  unfolding build_user_data
  build-fits e = ground arith

read-tag : (u : ℕ) → user_data_to_tag u ≡ u % 2 ^ 16
unfolding user_data_to_tag
read-tag u = omega (arith, bit_and-low 16 u)

read-op : (u : ℕ) → user_data_to_op u ≡ u / 2 ^ 16 % 2 ^ 8
unfolding user_data_to_op
read-op u = omega (arith, bit_and-low 8 (u / 2 ^ 16))

read-mark : (u : ℕ) → is_target_io u ≡ not (u / 2 ^ 63 % 2 == 0)
unfolding is_target_io
read-mark u = has-bit 63 u

-- Every field that a reader exists for comes back from the word, the mark by its lowest bit.
pub read-build :
    (tag op tgt_data mark : ℕ) {u : ℕ}
    → build_user_data tag op tgt_data mark ≡ some u
    → (user_data_to_tag u ≡ tag) × (user_data_to_op u ≡ op) × (is_target_io u ≡ not (mark % 2 == 0))
read-build tag op tgt_data mark {u} h =
    let fits = build-fits tag op tgt_data mark h in
    let e : u ≡ packed tag op tgt_data mark = ground (arith, build-packed tag op tgt_data mark) in
    (omega (arith, read-tag u), omega (arith, read-op u), ground (arith, read-mark u))

-- The assertion fails exactly where the tag or the target's data needs more than 16 bits, or the
-- opcode more than 8.
pub build-none_iff :
    (tag op tgt_data mark : ℕ)
    → (build_user_data tag op tgt_data mark ≡ none)
      ↔ ((2 ^ 16 ≤ tag) ⊎ (2 ^ 8 ≤ op) ⊎ (2 ^ 16 ≤ tgt_data))
unfolding build_user_data
build-none_iff tag op tgt_data mark = ground arith

-- Target data that the assertion lets through loses its upper eight bits: two values that agree
-- modulo 2 ^ 8 give one word.
pub build_loses_data :
    (tag op d e mark : ℕ)
    → d < 2 ^ 16
    → e < 2 ^ 16
    → d % 2 ^ 8 ≡ e % 2 ^ 8
    → build_user_data tag op d mark ≡ build_user_data tag op e mark
unfolding build_user_data
build_loses_data tag op d e mark p q same =
    let shifted : u32 (d * 2 ^ 24) ≡ u32 (e * 2 ^ 24) = omega arith in ground arith

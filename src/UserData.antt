-- ===== src/UserData.antt =====
-- The 64-bit `user_data` word of an io command (ublkhelper.c): bits 0-15 the tag, 16-23 the
-- opcode, 24 up the target's data, 63 the mark of target io.
pub mod Laws
use go_ublksrv.Base.{
  ℕ, ◌*◌, ◌/◌, ◌^◌, bit_and, bit_or, Bool, ◌&&◌, Option, none, some, ◌==◌, if◌then◌else◌,
}
use go_ublksrv.Bits.{has}
use go_ublksrv.Word.{u32, u64}

-- `none` is the failed assertion. The fields are `unsigned int`, so their shifts wrap at 32 bits;
-- only the mark is widened to 64 bits before it is shifted.
unfoldable pub build_user_data : (tag op tgt_data is_target_io : ℕ) → Option ℕ
build_user_data tag op tgt_data is_target_io =
    if (tag / 2 ^ 16 == 0) && (op / 2 ^ 8 == 0) && (tgt_data / 2 ^ 16 == 0)
    then some (
        bit_or (bit_or (bit_or tag (u32 (op * 2 ^ 16))) (u32 (tgt_data * 2 ^ 24)))
          (u64 (is_target_io * 2 ^ 63)))
    else none

unfoldable pub user_data_to_tag : ℕ → ℕ
user_data_to_tag user_data = u32 (bit_and user_data 0xffff)

unfoldable pub user_data_to_op : ℕ → ℕ
user_data_to_op user_data = u32 (bit_and (user_data / 2 ^ 16) 0xff)

unfoldable pub is_target_io : ℕ → Bool
is_target_io user_data = has user_data (2 ^ 63)

-- ===== src/Ctrl/Ops.antt =====
-- The numbers of the control commands (ublkhelper.h), and their two encodings.
use go_ublksrv.Base.{
  ℕ, ◌<◌, ◌≤◌, ◌≡◌, ◌⊎◌, ◌↔◌, Bool, true, ◌&&◌, ◌||◌, Option, none, some, arith, leb, ◌==◌,
  if◌then◌else◌,
}
use go_ublksrv.Ioctl.{Ioctl, IsIoctl}

abbrev pub ublk_cmd_get_queue_affinity : ℕ
ublk_cmd_get_queue_affinity = 0x01

abbrev pub ublk_cmd_get_dev_info : ℕ
ublk_cmd_get_dev_info = 0x02

abbrev pub ublk_cmd_add_dev : ℕ
ublk_cmd_add_dev = 0x04

abbrev pub ublk_cmd_del_dev : ℕ
ublk_cmd_del_dev = 0x05

abbrev pub ublk_cmd_start_dev : ℕ
ublk_cmd_start_dev = 0x06

abbrev pub ublk_cmd_stop_dev : ℕ
ublk_cmd_stop_dev = 0x07

abbrev pub ublk_cmd_set_params : ℕ
ublk_cmd_set_params = 0x08

abbrev pub ublk_cmd_get_params : ℕ
ublk_cmd_get_params = 0x09

abbrev pub ublk_cmd_start_user_recovery : ℕ
ublk_cmd_start_user_recovery = 0x10

abbrev pub ublk_cmd_end_user_recovery : ℕ
ublk_cmd_end_user_recovery = 0x11

abbrev pub ublk_cmd_get_dev_info2 : ℕ
ublk_cmd_get_dev_info2 = 0x12

-- sizeof(struct ublksrv_ctrl_cmd)
abbrev pub sizeof_ctrl_cmd : ℕ
sizeof_ctrl_cmd = 32

-- The commands that only read.
abbrev pub reads_only : ℕ → Bool
reads_only op =
    op == ublk_cmd_get_queue_affinity
    || op == ublk_cmd_get_dev_info
    || op == ublk_cmd_get_params
    || op == ublk_cmd_get_dev_info2

abbrev pub writes : ℕ → Bool
writes op =
    op == ublk_cmd_add_dev
    || op == ublk_cmd_del_dev
    || op == ublk_cmd_start_dev
    || op == ublk_cmd_stop_dev
    || op == ublk_cmd_set_params
    || op == ublk_cmd_start_user_recovery
    || op == ublk_cmd_end_user_recovery

module _ ⦃m : Ioctl⦄ where
  -- The table, with the zeros of the numbers that it leaves out.
  unfoldable pub ctrl_cmd_op : ℕ → ℕ
  ctrl_cmd_op op =
      if op == ublk_cmd_get_queue_affinity
      then m.ior b'u' ublk_cmd_get_queue_affinity sizeof_ctrl_cmd
      else if op == ublk_cmd_get_dev_info
      then m.ior b'u' ublk_cmd_get_dev_info sizeof_ctrl_cmd
      else if op == ublk_cmd_add_dev
      then m.iowr b'u' ublk_cmd_add_dev sizeof_ctrl_cmd
      else if op == ublk_cmd_del_dev
      then m.iowr b'u' ublk_cmd_del_dev sizeof_ctrl_cmd
      else if op == ublk_cmd_start_dev
      then m.iowr b'u' ublk_cmd_start_dev sizeof_ctrl_cmd
      else if op == ublk_cmd_stop_dev
      then m.iowr b'u' ublk_cmd_stop_dev sizeof_ctrl_cmd
      else if op == ublk_cmd_set_params
      then m.iowr b'u' ublk_cmd_set_params sizeof_ctrl_cmd
      else if op == ublk_cmd_get_params
      then m.ior b'u' ublk_cmd_get_params sizeof_ctrl_cmd
      else if op == ublk_cmd_start_user_recovery
      then m.iowr b'u' ublk_cmd_start_user_recovery sizeof_ctrl_cmd
      else if op == ublk_cmd_end_user_recovery
      then m.iowr b'u' ublk_cmd_end_user_recovery sizeof_ctrl_cmd
      else if op == ublk_cmd_get_dev_info2
      then m.ior b'u' ublk_cmd_get_dev_info2 sizeof_ctrl_cmd
      else 0

  -- `none` is a failed assertion.
  unfoldable pub legacy_op_to_ioctl : ℕ → Option ℕ
  unfolding ctrl_cmd_op
  legacy_op_to_ioctl op =
      if (m.ioc_type op == 0)
        && (m.ioc_dir op == 0)
        && (m.ioc_size op == 0)
        && leb ublk_cmd_get_queue_affinity op
        && leb op ublk_cmd_get_dev_info2
      then some (ctrl_cmd_op op)
      else none

module _ ⦃m : Ioctl⦄ (laws : IsIoctl m) where
  -- A command of the table is translated, and its number can be read back from the encoded form.
  pub ioc_nr-legacy_op_to_ioctl :
      (op : ℕ)
      → (reads_only op || writes op) ≡ true
      → (code : ℕ) × (legacy_op_to_ioctl op ≡ some code) × (m.ioc_nr code ≡ op)
  unfolding legacy_op_to_ioctl ctrl_cmd_op
  ioc_nr-legacy_op_to_ioctl op known = (
    ctrl_cmd_op op,
    ground (
      arith,
      laws.type_of_legacy op (ground arith),
      laws.dir_of_legacy op (ground arith),
      laws.size_of_legacy op (ground arith),
    ),
    ground (arith, laws.nr_of_ior b'u' op 32, laws.nr_of_iowr b'u' op 32),
  )

  -- The assertions fail exactly outside 1 to 0x12: an op in that range that the table leaves out
  -- passes them, and is translated to 0.
  legacy_op_to_ioctl-range :
      (op : ℕ)
      → op < 256
      → ((legacy_op_to_ioctl op ≡ none) ↔ ((op ≡ 0) ⊎ (0x12 < op)))
        × ((legacy_op_to_ioctl op ≡ some 0) ↔ ((1 ≤ op) × (op ≤ 0x12) × (ctrl_cmd_op op ≡ 0)))
  unfolding legacy_op_to_ioctl
  legacy_op_to_ioctl-range op h = (
    ground (arith, laws.type_of_legacy op h, laws.dir_of_legacy op h, laws.size_of_legacy op h),
    ground (arith, laws.type_of_legacy op h, laws.dir_of_legacy op h, laws.size_of_legacy op h),
  )

-- ===== src/Dev.antt =====
-- A device of the daemon (ublkhelper.h): what the driver knows of it, and what its queues read.
pub mod Depths
pub mod Buffers
use go_ublksrv.Base.{ℕ, Bool, Option, List}
use go_ublksrv.Bits.{has}

-- `struct ublksrv_ctrl_dev_info`.
pub record DevInfo : Type 0 where
  pub nr_hw_queues : ℕ  -- __u16
  pub queue_depth : ℕ  -- __u16
  pub state : ℕ  -- __u16
  pub max_io_buf_bytes : ℕ  -- __u32
  pub dev_id : ℕ  -- __u32
  pub ublksrv_pid : ℕ  -- __s32
  pub flags : ℕ  -- __u64
  pub ublksrv_flags : ℕ  -- __u64
  pub owner_uid : ℕ  -- __u32
  pub owner_gid : ℕ  -- __u32

-- The fields of `struct ublksrv_tgt_info` that the code reads or writes.
pub record TgtInfo : Type 0 where
  pub tgt_ring_depth : ℕ  -- unsigned
  pub nr_fds : ℕ  -- unsigned
  pub fds : List ℕ  -- int [32]
  pub extra_ios : ℕ  -- unsigned
  pub io_data_size : ℕ  -- unsigned
  pub iowq_max_workers : ℕ × ℕ  -- unsigned [2]

-- `struct _ublksrv_dev`; `dev_info` is `ctrl_dev->dev_info`.
pub record Dev : Type 0 where
  pub tgt : TgtInfo
  pub cdev_fd : ℕ  -- int
  pub pid_file_fd : ℕ  -- int
  pub dev_info : DevInfo
  pub cq_depth : ℕ  -- int

abbrev pub ublk_f_unprivileged_dev : ℕ
ublk_f_unprivileged_dev = 32

abbrev pub ublk_f_cmd_ioctl_encode : ℕ
ublk_f_cmd_ioctl_encode = 64

abbrev pub ublk_f_user_copy : ℕ
ublk_f_user_copy = 128

abbrev pub ublksrv_f_need_eventfd : ℕ
ublksrv_f_need_eventfd = 2

unfoldable pub ublk_is_unprivileged : DevInfo → Bool
ublk_is_unprivileged info = has info.flags ublk_f_unprivileged_dev

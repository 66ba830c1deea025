-- ===== src/Ctrl/Types.antt =====
-- `struct ublk_params` (ublkhelper.h), and the memory that a control command points to.
use go_ublksrv.Base.{ℕ}
use go_ublksrv.Dev.{DevInfo}

pub record ParamBasic : Type 0 where
  pub attrs : ℕ  -- __u32
  pub logical_bs_shift : ℕ  -- __u8
  pub physical_bs_shift : ℕ  -- __u8
  pub io_opt_shift : ℕ  -- __u8
  pub io_min_shift : ℕ  -- __u8
  pub max_sectors : ℕ  -- __u32
  pub chunk_sectors : ℕ  -- __u32
  pub dev_sectors : ℕ  -- __u64
  pub virt_boundary_mask : ℕ  -- __u64

pub record ParamDiscard : Type 0 where
  pub discard_alignment : ℕ  -- __u32
  pub discard_granularity : ℕ  -- __u32
  pub max_discard_sectors : ℕ  -- __u32
  pub max_write_zeroes_sectors : ℕ  -- __u32
  pub max_discard_segments : ℕ  -- __u16
  pub reserved0 : ℕ  -- __u16

pub record ParamDevt : Type 0 where
  pub char_major : ℕ  -- __u32
  pub char_minor : ℕ  -- __u32
  pub disk_major : ℕ  -- __u32
  pub disk_minor : ℕ  -- __u32

-- Without the twenty reserved bytes.
pub record ParamZoned : Type 0 where
  pub max_open_zones : ℕ  -- __u32
  pub max_active_zones : ℕ  -- __u32
  pub max_zone_append_sectors : ℕ  -- __u32

pub record Params : Type 0 where
  pub len : ℕ  -- __u32
  pub types : ℕ  -- __u32
  pub basic : ParamBasic
  pub discard : ParamDiscard
  pub devt : ParamDevt
  pub zoned : ParamZoned

-- The memory that `addr` points to: none; the `dev_info` of the device itself; a block of 32 bytes
-- with the path of the device with this id; such a block and a `struct ublksrv_ctrl_dev_info`; the
-- caller's `struct ublk_params`; a block with the path and a `struct ublk_params`; a `cpu_set_t` at
-- an offset of the buffer for all queues; a block with the path and a `cpu_set_t` behind it, there.
pub data Memory : Type 0 where
  null_addr : Memory
  own_info : DevInfo → Memory
  path : (dev_id : ℕ) → Memory
  path_info : (dev_id : ℕ) → DevInfo → Memory
  own_params : Params → Memory
  path_params : (dev_id : ℕ) → Params → Memory
  cpu_set : (offset cpus : ℕ) → Memory
  path_cpu_set : (offset dev_id cpus : ℕ) → Memory

-- ===== src/Target/Device.antt =====
-- What is known of a device: `getDeviceInfo` (c_bridge.go).
pub mod Paths
use go_ublksrv.Base.{ℕ, ◌*◌, ◌^◌, none, some, List, [], if◌then◌else◌}
use go_ublksrv.Word.{u64, is_neg}
use go_ublksrv.Ioctl.{Ioctl}
use go_ublksrv.Dev.{DevInfo}
use go_ublksrv.Ctrl.Types.{Params}
use go_ublksrv.Ctrl.Send.{CtrlRing, CtrlDev, answered, asserted, still_waiting}
use go_ublksrv.Ctrl.Info.{ublksrv_ctrl_get_info}
use go_ublksrv.Ctrl.Params.{params_in, ublksrv_ctrl_get_params}
use go_ublksrv.Ctrl.Delete.{CtrlAnswers, DevData, ublksrv_ctrl_init, ublksrv_ctrl_deinit}

-- `type DeviceInfo struct`.
pub record DeviceInfo : Type 0 where
  pub id : ℕ
  pub nr_hw_queues : ℕ
  pub queue_depth : ℕ
  pub state : ℕ
  pub max_io_buf_bytes : ℕ
  pub ublksrv_pid : ℕ
  pub flags : ℕ
  pub ublksrv_flags : ℕ
  pub owner_uid : ℕ
  pub owner_gid : ℕ
  pub size : ℕ  -- int64, as its 64-bit pattern
  pub block_size : ℕ  -- int, as its 64-bit pattern

-- `var params C.struct_ublk_params`
abbrev pub zero_params : Params
zero_params = record {
  len = 0;
  types = 0;
  basic = record {
    attrs = 0;
    logical_bs_shift = 0;
    physical_bs_shift = 0;
    io_opt_shift = 0;
    io_min_shift = 0;
    max_sectors = 0;
    chunk_sectors = 0;
    dev_sectors = 0;
    virt_boundary_mask = 0;
  };
  discard = record {
    discard_alignment = 0;
    discard_granularity = 0;
    max_discard_sectors = 0;
    max_write_zeroes_sectors = 0;
    max_discard_segments = 0;
    reserved0 = 0;
  };
  devt = record { char_major = 0; char_minor = 0; disk_major = 0; disk_minor = 0 };
  zoned = record { max_open_zones = 0; max_active_zones = 0; max_zone_append_sectors = 0 };
}

unfoldable pub device_info : DevInfo → Params → DeviceInfo
device_info i p = record {
  id = i.dev_id;
  nr_hw_queues = i.nr_hw_queues;
  queue_depth = i.queue_depth;
  state = i.state;
  max_io_buf_bytes = i.max_io_buf_bytes;
  ublksrv_pid = i.ublksrv_pid;
  flags = i.flags;
  ublksrv_flags = i.ublksrv_flags;
  owner_uid = i.owner_uid;
  owner_gid = i.owner_gid;
  size = u64 (p.basic.dev_sectors * 2 ^ 9);
  block_size = u64 (2 ^ p.basic.logical_bs_shift);
}

-- A result, or one of the two errors; a command that does not return.
pub data Got : Type 0 where
  got : DeviceInfo → Got
  no_ctrl : Got
  no_info : (ret : ℕ) → Got
  hangs : Got

abbrev id_data : (id : ℕ) → DevData
id_data id = record {
  dev_id = id;
  max_io_buf_bytes = 0;
  nr_hw_queues = 0;
  queue_depth = 0;
  flags = 0;
  ublksrv_flags = 0;
}

module _ {K : Type 0} ⦃m : Ioctl⦄ ⦃c : CtrlRing K⦄ where
  -- From the query of the info on, with the descriptors that the deferred call closes. The result of
  -- the query of the parameters is not looked at.
  unfoldable pub read_device : (fuel ring_fd : ℕ) (junk : DevInfo) → CtrlDev K → Got × List ℕ
  unfolding device_info ublksrv_ctrl_deinit
  read_device fuel ring_fd junk dev = elim (ublksrv_ctrl_get_info fuel junk dev) [
    | asserted ↦ (hangs, [])
    | still_waiting ↦ (hangs, [])
    | answered ret memory dev1 ↦
        if is_neg ret
        then (no_info ret, ublksrv_ctrl_deinit ring_fd dev1)
        else elim (ublksrv_ctrl_get_params fuel zero_params dev1) [
          | asserted ↦ (hangs, [])
          | still_waiting ↦ (hangs, [])
          | answered ret' memory' dev2 ↦ (
            got (device_info dev2.dev_info (params_in memory' zero_params)),
            ublksrv_ctrl_deinit ring_fd dev2,
          )
        ]
  ]

  unfoldable pub get_device_info :
      (fuel : ℕ) (junk : DevInfo) → CtrlAnswers K → (id : ℕ) → Got × List ℕ
  unfolding ublksrv_ctrl_init read_device
  get_device_info fuel junk answers id = elim (ublksrv_ctrl_init answers (id_data id)) [
    | none ↦ (no_ctrl, [])
    | some dev ↦ read_device fuel answers.ring_fd junk dev
  ]

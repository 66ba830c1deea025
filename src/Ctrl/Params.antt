-- ===== src/Ctrl/Params.antt =====
-- The parameters of a device: set and got with control commands, and those of a new device.
pub mod Sets
pub mod Driver
pub mod Store
pub mod Fits
use go_ublksrv.Base.{ℕ, ◌-◌, ◌/◌, ◌^◌, bit_or, Bool, true, false, not, ◌&&◌, if◌then◌else◌}
use go_ublksrv.Word.{u32, is_neg}
use go_ublksrv.Ioctl.{Ioctl}
use go_ublksrv.Dev.{DevInfo, ublk_is_unprivileged}
use go_ublksrv.Ctrl.Types.{
  ParamBasic, ParamDiscard, ParamDevt, ParamZoned, Params, Memory, null_addr, own_params,
  path_params,
}
use go_ublksrv.Ctrl.Ops.{ublk_cmd_set_params, ublk_cmd_get_params}
use go_ublksrv.Ctrl.Cmd.{CtrlCmdData, ctrl_cmd_has_buf, ctrl_cmd_has_data}
use go_ublksrv.Ctrl.Send.{CtrlRing, CtrlDev, Answer, answered, and_then, ublksrv_ctrl_cmd}

-- sizeof(struct ublk_params), and with UBLKC_PATH_MAX before it.
abbrev pub sizeof_params : ℕ
sizeof_params = 112

abbrev pub sizeof_path_params : ℕ
sizeof_path_params = 144

abbrev pub ublk_param_type_basic : ℕ
ublk_param_type_basic = 1

abbrev pub ublk_param_type_discard : ℕ
ublk_param_type_discard = 2

-- `params->len = sizeof(*params)`
abbrev pub with_len : Params → Params
with_len params = record params { len = sizeof_params }

-- The `struct ublk_params` that is in a command's memory.
abbrev pub params_in : Memory → Params → Params
params_in memory old = elim memory [ own_params p ↦ p | path_params id p ↦ p | _ ↦ old ]

-- The command that both functions build.
unfoldable pub params_cmd : (cmd_op : ℕ) → DevInfo → Params → CtrlCmdData
params_cmd cmd_op info params =
    if ublk_is_unprivileged info
    then record {
      cmd_op = cmd_op;
      flags = bit_or ctrl_cmd_has_buf (bit_or ctrl_cmd_has_buf ctrl_cmd_has_data);
      data0 = 0;
      dev_path_len = 32;
      addr = path_params info.dev_id (with_len params);
      len = sizeof_path_params;
    }
    else record {
      cmd_op = cmd_op;
      flags = ctrl_cmd_has_buf;
      data0 = 0;
      dev_path_len = 0;
      addr = own_params (with_len params);
      len = sizeof_params;
    }

-- The parameters of `init_params`: 512-byte logical and 4096-byte physical blocks.
unfoldable pub initial_params : DevInfo → (dev_sectors : ℕ) → Params
initial_params info dev_sectors = record {
  len = sizeof_params;
  types = bit_or ublk_param_type_basic ublk_param_type_discard;
  basic = record {
    attrs = 0;
    logical_bs_shift = 9;
    physical_bs_shift = 12;
    io_opt_shift = 12;
    io_min_shift = 9;
    max_sectors = info.max_io_buf_bytes / 2 ^ 9;
    chunk_sectors = 0;
    dev_sectors = dev_sectors;
    virt_boundary_mask = 0;
  };
  discard = record {
    discard_alignment = 0;
    discard_granularity = 2 ^ 9;
    max_discard_sectors = (2 ^ 32 - 1) / 2 ^ 9;
    max_write_zeroes_sectors = 0;
    max_discard_segments = 1;
    reserved0 = 0;
  };
  devt = record { char_major = 0; char_minor = 0; disk_major = 0; disk_minor = 0 };
  zoned = record { max_open_zones = 0; max_active_zones = 0; max_zone_append_sectors = 0 };
}

module _ {K : Type 0} ⦃m : Ioctl⦄ ⦃c : CtrlRing K⦄ where
  -- The memory of the answer is the caller's `params` after the call. A driver reads the block on
  -- the stack of an unprivileged device, so `params` stays as it was sent.
  unfoldable pub ublksrv_ctrl_set_params : (fuel : ℕ) → Params → CtrlDev K → Answer K
  unfolding params_cmd
  ublksrv_ctrl_set_params fuel params dev =
      and_then (ublksrv_ctrl_cmd fuel (params_cmd ublk_cmd_set_params dev.dev_info params) dev)
        (λ ret memory dev'.
          answered ret
            (own_params (
              if ublk_is_unprivileged dev.dev_info
              then with_len params
              else params_in memory (with_len params)))
            dev')

  -- Of an unprivileged device the parameters are copied back from the block, if there is no error.
  unfoldable pub ublksrv_ctrl_get_params : (fuel : ℕ) → Params → CtrlDev K → Answer K
  unfolding params_cmd
  ublksrv_ctrl_get_params fuel params dev =
      and_then (ublksrv_ctrl_cmd fuel (params_cmd ublk_cmd_get_params dev.dev_info params) dev)
        (λ ret memory dev'.
          answered ret
            (own_params (
              if ublk_is_unprivileged dev'.dev_info && is_neg ret
              then with_len params
              else params_in memory (with_len params)))
            dev')

  unfoldable pub init_params : (fuel : ℕ) → (dev_sectors : ℕ) → CtrlDev K → Answer K
  unfolding initial_params ublksrv_ctrl_set_params
  init_params fuel dev_sectors dev =
      ublksrv_ctrl_set_params fuel (initial_params dev.dev_info dev_sectors) dev

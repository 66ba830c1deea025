-- ===== src/Ctrl/Info.antt =====
-- The query of a device's info, with its fallbacks.
pub mod Queries
pub mod Fallback
use go_ublksrv.Base.{ℕ, Bool, true, false, not, ◌&&◌, Option, none, some, ◌==◌, if◌then◌else◌}
use go_ublksrv.Word.{minus, is_neg, einval}
use go_ublksrv.Ioctl.{Ioctl}
use go_ublksrv.Dev.{DevInfo, ublk_is_unprivileged}
use go_ublksrv.Ctrl.Ops.{ublk_cmd_get_dev_info, ublk_cmd_get_dev_info2, legacy_op_to_ioctl}
use go_ublksrv.Ctrl.Types.{Memory, null_addr, own_info, path, path_info}
use go_ublksrv.Ctrl.Cmd.{CtrlCmdData}
use go_ublksrv.Ctrl.Send.{
  CtrlRing, CtrlDev, Answer, answered, asserted, still_waiting, ublksrv_ctrl_cmd, and_then,
}

-- sizeof(struct ublksrv_ctrl_dev_info), and with UBLKC_PATH_MAX before it.
abbrev pub sizeof_dev_info : ℕ
sizeof_dev_info = 64

abbrev pub sizeof_path_info : ℕ
sizeof_path_info = 96

-- The `struct ublksrv_ctrl_dev_info` that is in a command's memory.
abbrev pub info_in : Memory → DevInfo → DevInfo
info_in memory old = elim memory [ own_info i ↦ i | path_info id i ↦ i | _ ↦ old ]

module _ {K : Type 0} ⦃m : Ioctl⦄ ⦃c : CtrlRing K⦄ where
  -- The command of a query. The block on the stack holds `junk` where it is not written.
  unfoldable pub info_cmd : (junk : DevInfo) → (cmd_op : ℕ) → CtrlDev K → CtrlCmdData
  info_cmd junk cmd_op dev =
      if m.ioc_nr cmd_op == ublk_cmd_get_dev_info2
      then record {
        cmd_op = cmd_op;
        flags = 7;
        data0 = 0;
        dev_path_len = 32;
        addr = path_info dev.dev_info.dev_id junk;
        len = sizeof_path_info;
      }
      else record {
        cmd_op = cmd_op;
        flags = 6;
        data0 = 0;
        dev_path_len = 0;
        addr = own_info dev.dev_info;
        len = sizeof_dev_info;
      }

  -- What the memory leaves in `dev_info`: the driver writes there itself, or it is copied after a
  -- query that did not fail.
  abbrev pub keep_info : (has_dev_path : Bool) → (ret : ℕ) → Memory → CtrlDev K → CtrlDev K
  keep_info has_dev_path ret memory dev =
      if has_dev_path && is_neg ret
      then dev
      else record dev { dev_info = info_in memory dev.dev_info }

  -- `__ublksrv_ctrl_get_info_no_trans`
  unfoldable pub get_info_no_trans : (fuel : ℕ) (junk : DevInfo) (cmd_op : ℕ) → CtrlDev K → Answer K
  unfolding info_cmd
  get_info_no_trans fuel junk cmd_op dev =
      if ublk_is_unprivileged dev.dev_info && m.ioc_nr cmd_op == ublk_cmd_get_dev_info
      then answered (minus einval) null_addr dev
      else and_then (ublksrv_ctrl_cmd fuel (info_cmd junk cmd_op dev) dev) (λ ret memory dev'.
        answered ret memory (keep_info (m.ioc_nr cmd_op == ublk_cmd_get_dev_info2) ret memory dev'))

  -- `__ublksrv_ctrl_get_info`: the encoded command, and the legacy one where it fails.
  unfoldable pub get_info_op : (fuel : ℕ) (junk : DevInfo) (cmd_op : ℕ) → CtrlDev K → Answer K
  unfolding get_info_no_trans
  get_info_op fuel junk cmd_op dev = elim (legacy_op_to_ioctl cmd_op) [
    | none ↦ asserted
    | some new_code ↦ and_then (get_info_no_trans fuel junk new_code dev) (λ ret memory dev'.
        if is_neg ret then get_info_no_trans fuel junk cmd_op dev' else answered ret memory dev')
  ]

  -- The header defines UBLK_CMD_GET_DEV_INFO2, so the query begins with it.
  unfoldable pub ublksrv_ctrl_get_info : (fuel : ℕ) (junk : DevInfo) → CtrlDev K → Answer K
  unfolding get_info_op
  ublksrv_ctrl_get_info fuel junk dev =
      and_then (get_info_op fuel junk ublk_cmd_get_dev_info2 dev) (λ ret memory dev'.
        if is_neg ret && not (ublk_is_unprivileged dev'.dev_info)
        then get_info_op fuel junk ublk_cmd_get_dev_info dev'
        else answered ret memory dev')

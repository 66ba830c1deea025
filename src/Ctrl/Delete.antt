-- ===== src/Ctrl/Delete.antt =====
-- Stopping and deleting a device, and the whole deletion of one that has this number.
pub mod Order
pub mod Descriptors
pub mod Whole
use go_ublksrv.Base.{
  ◌+◌, ◌-◌, ◌^◌, ℕ, ◌⊎◌, inl, inr, bit_or, Bool, true, false, not, Option, none, some, List, [],
  ◌∷◌, if◌then◌else◌,
}
use go_ublksrv.Word.{u16, u32, u64, minus, is_neg, eopnotsupp}
use go_ublksrv.Ioctl.{Ioctl}
use go_ublksrv.Dev.{DevInfo, ublk_is_unprivileged}
use go_ublksrv.Ctrl.Ops.{ublk_cmd_del_dev, ublk_cmd_stop_dev, ublk_cmd_start_dev}
use go_ublksrv.Ctrl.Types.{Memory, null_addr, path}
use go_ublksrv.Ctrl.Cmd.{CtrlCmdData, ctrl_cmd_has_data, ctrl_cmd_has_buf}
use go_ublksrv.Ctrl.Send.{
  CtrlRing, CtrlDev, Answer, answered, asserted, still_waiting, ublksrv_ctrl_cmd, and_then,
}
use go_ublksrv.Ctrl.Info.{ublksrv_ctrl_get_info}

-- The fields of `struct ublksrv_dev_data` that become the device's info.
pub record DevData : Type 0 where
  pub dev_id : ℕ  -- int
  pub max_io_buf_bytes : ℕ  -- unsigned
  pub nr_hw_queues : ℕ  -- unsigned short
  pub queue_depth : ℕ  -- unsigned short
  pub flags : ℕ  -- unsigned long
  pub ublksrv_flags : ℕ  -- unsigned long

-- What the system answers: `open` of the control device, and `io_uring_queue_init_params` with the
-- descriptor that it leaves in the ring.
pub record CtrlAnswers (K : Type 0) : Type 0 where
  pub open_ctrl : ℕ
  pub ring_init : ℕ × K
  pub ring_fd : ℕ

-- `none` is NULL.
unfoldable pub ublksrv_ctrl_init : {K : Type 0} → CtrlAnswers K → DevData → Option (CtrlDev K)
ublksrv_ctrl_init answers d =
    let (ret, ring) = answers.ring_init in
    if is_neg answers.open_ctrl
    then none
    else if is_neg ret
    then none
    else some (record {
      ring = ring;
      ctrl_fd = answers.open_ctrl;
      dev_info = record {
        nr_hw_queues = d.nr_hw_queues;
        queue_depth = d.queue_depth;
        state = 0;
        max_io_buf_bytes = d.max_io_buf_bytes;
        dev_id = d.dev_id;
        ublksrv_pid = 0;
        flags = d.flags;
        ublksrv_flags = d.ublksrv_flags;
        owner_uid = 0;
        owner_gid = 0;
      };
      sent = [];
    })

-- The descriptors that are closed, in order; the memory is freed.
unfoldable pub ublksrv_ctrl_deinit : {K : Type 0} → (ring_fd : ℕ) → CtrlDev K → List ℕ
ublksrv_ctrl_deinit ring_fd dev = ring_fd ∷ dev.ctrl_fd ∷ []

-- An `int` as a `__u64`.
abbrev pub sign_extend : ℕ → ℕ
sign_extend n = if is_neg n then n + (2 ^ 64 - 2 ^ 32) else n

-- `ublk_un_privileged_prep_data`
unfoldable pub un_privileged_prep_data : DevInfo → CtrlCmdData → CtrlCmdData
un_privileged_prep_data info cmd =
    if ublk_is_unprivileged info
    then record cmd {
      flags = bit_or cmd.flags (bit_or ctrl_cmd_has_buf ctrl_cmd_has_data);
      len = 32;
      dev_path_len = 32;
      addr = path info.dev_id;
    }
    else cmd

-- A command with nothing but its number.
abbrev pub bare : (cmd_op : ℕ) → CtrlCmdData
bare cmd_op = record {
  cmd_op = cmd_op;
  flags = 0;
  data0 = 0;
  dev_path_len = 0;
  addr = null_addr;
  len = 0;
}

module _ {K : Type 0} ⦃m : Ioctl⦄ ⦃c : CtrlRing K⦄ where
  unfoldable pub ublksrv_ctrl_stop_dev : (fuel : ℕ) → CtrlDev K → Answer K
  unfolding un_privileged_prep_data
  ublksrv_ctrl_stop_dev fuel dev =
      ublksrv_ctrl_cmd fuel (un_privileged_prep_data dev.dev_info (bare ublk_cmd_stop_dev)) dev

  unfoldable pub ublksrv_ctrl_del_dev : (fuel : ℕ) → CtrlDev K → Answer K
  unfolding un_privileged_prep_data
  ublksrv_ctrl_del_dev fuel dev =
      ublksrv_ctrl_cmd fuel (un_privileged_prep_data dev.dev_info (bare ublk_cmd_del_dev)) dev

  -- The pid is stored in the device's info before the command is sent.
  unfoldable pub ublksrv_ctrl_start_dev : (fuel : ℕ) (daemon_pid : ℕ) → CtrlDev K → Answer K
  unfolding un_privileged_prep_data
  ublksrv_ctrl_start_dev fuel daemon_pid dev =
      let info = record (dev.dev_info) { ublksrv_pid = daemon_pid } in
      let plain = record (bare ublk_cmd_start_dev) { flags = ctrl_cmd_has_data } in
      ublksrv_ctrl_cmd fuel
        (record (un_privileged_prep_data dev.dev_info plain) { data0 = sign_extend daemon_pid })
        (record dev { dev_info = info })

  -- From the query on.
  unfoldable pub delete_known : (fuel : ℕ) (junk : DevInfo) → CtrlDev K → Answer K
  unfolding ublksrv_ctrl_stop_dev ublksrv_ctrl_del_dev
  delete_known fuel junk dev = and_then (ublksrv_ctrl_get_info fuel junk dev) (λ ret memory dev1.
      if is_neg ret
      then answered 0 memory dev1
      else and_then (ublksrv_ctrl_stop_dev fuel dev1) (λ ret' memory' dev2.
        if is_neg ret' then answered ret' memory' dev2 else ublksrv_ctrl_del_dev fuel dev2))

  -- The deletion, and the descriptors that it closes. `none` in place of a device is the failed
  -- initialisation, with its result -EOPNOTSUPP.
  unfoldable pub cmd_dev_del :
      (fuel : ℕ) (junk : DevInfo) → CtrlAnswers K → (number : ℕ) → (ℕ ⊎ Answer K) × List ℕ
  unfolding ublksrv_ctrl_init delete_known ublksrv_ctrl_deinit
  cmd_dev_del fuel junk answers number =
      elim (ublksrv_ctrl_init answers (record {
        dev_id = number;
        max_io_buf_bytes = 0;
        nr_hw_queues = 0;
        queue_depth = 0;
        flags = 0;
        ublksrv_flags = 0;
      })) [
        | none ↦ (inl (minus eopnotsupp), [])
        | some dev ↦
            let run = delete_known fuel junk dev in
            (
              inr run,
              elim run [
                | answered ret memory dev' ↦ ublksrv_ctrl_deinit answers.ring_fd dev'
                | _ ↦ []
              ],
            )
      ]

-- ===== src/Ctrl/Delete/Descriptors.antt =====
-- No command changes the descriptor of the control device.
use mathlib.Core.Path.{subst}
use go_ublksrv.Base.{
  ℕ, ◌≡◌, ◌∙◌, ◌&&◌, Bool, true, false, not, refl, Option, none, some, arith, ◌==◌, if◌then◌else◌,
  [], ◌∷◌, ◌++◌,
}
use go_ublksrv.Word.{is_neg, minus, einval}
use go_ublksrv.Ioctl.{Ioctl}
use go_ublksrv.Dev.{DevInfo, ublk_is_unprivileged}
use go_ublksrv.Ctrl.Types.{Memory}
use go_ublksrv.Ctrl.Ops.{legacy_op_to_ioctl, ublk_cmd_get_dev_info, ublk_cmd_get_dev_info2}
use go_ublksrv.Ctrl.Cmd.{CtrlCmdData, CtrlSqe, ublksrv_ctrl_init_cmd}
use go_ublksrv.Ctrl.Send.{
  CtrlRing, CtrlDev, Answer, answered, asserted, still_waiting, and_then, wait_cqe, submit_cmd,
  ublksrv_ctrl_cmd,
}
use go_ublksrv.Ctrl.Info.{
  info_cmd, keep_info, get_info_no_trans, get_info_op, ublksrv_ctrl_get_info,
}
use go_ublksrv.Ctrl.Delete.{ublksrv_ctrl_stop_dev, ublksrv_ctrl_del_dev, delete_known}

-- A command that returns leaves a device with this descriptor.
abbrev pub SameFd : {K : Type 0} → (fd : ℕ) → Answer K → Type 0
SameFd fd (answered ret memory dev) = dev.ctrl_fd ≡ fd
SameFd fd asserted = Unit {0}
SameFd fd still_waiting = Unit {0}

pub and_then-SameFd :
    {K : Type 0} (fd : ℕ) (a : Answer K) (f : (ret : ℕ) → Memory → CtrlDev K → Answer K)
    → SameFd fd a
    → ((ret : ℕ) (memory : Memory) (dev : CtrlDev K)
        → dev.ctrl_fd ≡ fd
        → SameFd fd (f ret memory dev))
    → SameFd fd (and_then a f)
and_then-SameFd fd (answered ret memory dev) f same next = next ret memory dev same
and_then-SameFd fd asserted f same next = tt
and_then-SameFd fd still_waiting f same next = tt

if-SameFd :
    {K : Type 0} (fd : ℕ) (b : Bool) (x y : Answer K)
    → SameFd fd x
    → SameFd fd y
    → SameFd fd (if b then x else y)
if-SameFd fd true x y sx sy = sx
if-SameFd fd false x y sx sy = sy

module _ {K : Type 0} ⦃m : Ioctl⦄ ⦃c : CtrlRing K⦄ where
  waited-SameFd :
      (addr : Memory) (dev : CtrlDev K) (waited : Option (ℕ × K))
      → SameFd dev.ctrl_fd (elim waited [
        | none ↦ still_waiting
        | some (ret', k') ↦
            if is_neg ret'
            then answered ret' addr (record dev { ring = k' })
            else answered (c.cqe k').0 (c.cqe k').1 (record dev { ring = c.cqe_seen k' })
      ])
  waited-SameFd addr dev none = tt
  waited-SameFd addr dev (some (ret', k')) = if-SameFd dev.ctrl_fd (is_neg ret') _ _ refl refl

  submit_cmd-SameFd :
      (fuel : ℕ) (addr : Memory) (sqe : CtrlSqe) (dev : CtrlDev K)
      → SameFd dev.ctrl_fd (submit_cmd fuel addr sqe dev)
  unfolding submit_cmd
  submit_cmd-SameFd fuel addr sqe dev =
      if-SameFd dev.ctrl_fd (is_neg (c.submit sqe dev.ring).0) _ _ refl (
        waited-SameFd addr
          (record dev { ring = (c.submit sqe dev.ring).1; sent = dev.sent ++ (sqe ∷ []) })
          (wait_cqe fuel (c.submit sqe dev.ring).1))

  made-SameFd :
      (fuel : ℕ) (cmd : CtrlCmdData) (dev : CtrlDev K) (made : Option CtrlSqe)
      → SameFd dev.ctrl_fd
          (elim made [ none ↦ asserted | some sqe ↦ submit_cmd fuel cmd.addr sqe dev ])
  made-SameFd fuel cmd dev none = tt
  made-SameFd fuel cmd dev (some sqe) = submit_cmd-SameFd fuel cmd.addr sqe dev

  taken-SameFd :
      (fuel : ℕ) (cmd : CtrlCmdData) (dev : CtrlDev K) (got : Option K)
      → SameFd dev.ctrl_fd (elim got [
        | none ↦ answered (minus einval) cmd.addr dev
        | some k ↦ elim (ublksrv_ctrl_init_cmd dev.ctrl_fd dev.dev_info cmd) [
          | none ↦ asserted
          | some sqe ↦ submit_cmd fuel cmd.addr sqe (record dev { ring = k })
        ]
      ])
  taken-SameFd fuel cmd dev none = refl
  taken-SameFd fuel cmd dev (some k) =
      made-SameFd fuel cmd (record dev { ring = k })
        (ublksrv_ctrl_init_cmd dev.ctrl_fd dev.dev_info cmd)

  pub ctrl_cmd-SameFd :
      (fuel fd : ℕ) (cmd : CtrlCmdData) (dev : CtrlDev K)
      → dev.ctrl_fd ≡ fd
      → SameFd fd (ublksrv_ctrl_cmd fuel cmd dev)
  unfolding ublksrv_ctrl_cmd
  ctrl_cmd-SameFd fuel fd cmd dev e =
      subst (λ n. SameFd n (ublksrv_ctrl_cmd fuel cmd dev)) e
        (taken-SameFd fuel cmd dev (c.get_sqe dev.ring))

  keep_info-fd :
      (path : Bool) (ret : ℕ) (memory : Memory) (dev : CtrlDev K)
      → (keep_info path ret memory dev).ctrl_fd ≡ dev.ctrl_fd
  keep_info-fd path ret memory dev = ground arith

  no_trans-SameFd :
      (fuel fd : ℕ) (junk : DevInfo) (cmd_op : ℕ) (dev : CtrlDev K)
      → dev.ctrl_fd ≡ fd
      → SameFd fd (get_info_no_trans fuel junk cmd_op dev)
  unfolding get_info_no_trans
  no_trans-SameFd fuel fd junk cmd_op dev e =
      if-SameFd fd (ublk_is_unprivileged dev.dev_info && m.ioc_nr cmd_op == ublk_cmd_get_dev_info) _
        _ e
        (and_then-SameFd fd (ublksrv_ctrl_cmd fuel (info_cmd junk cmd_op dev) dev) _
          (ctrl_cmd-SameFd fuel fd (info_cmd junk cmd_op dev) dev e)
          (λ ret memory dev' e'.
            keep_info-fd (m.ioc_nr cmd_op == ublk_cmd_get_dev_info2) ret memory dev' ∙ e'))

  coded-SameFd :
      (fuel fd : ℕ) (junk : DevInfo) (cmd_op : ℕ) (dev : CtrlDev K) (coded : Option ℕ)
      → dev.ctrl_fd ≡ fd
      → SameFd fd (elim coded [
        | none ↦ asserted
        | some new_code ↦ and_then (get_info_no_trans fuel junk new_code dev) (λ ret memory dev'.
            if is_neg ret
            then get_info_no_trans fuel junk cmd_op dev'
            else answered ret memory dev')
      ])
  coded-SameFd fuel fd junk cmd_op dev none e = tt
  coded-SameFd fuel fd junk cmd_op dev (some new_code) e =
      and_then-SameFd fd (get_info_no_trans fuel junk new_code dev) _
        (no_trans-SameFd fuel fd junk new_code dev e)
        (λ ret memory dev' e'.
          if-SameFd fd (is_neg ret) _ _ (no_trans-SameFd fuel fd junk cmd_op dev' e') e')

  pub get_info-SameFd :
      (fuel fd : ℕ) (junk : DevInfo) (dev : CtrlDev K)
      → dev.ctrl_fd ≡ fd
      → SameFd fd (ublksrv_ctrl_get_info fuel junk dev)
  unfolding ublksrv_ctrl_get_info get_info_op
  get_info-SameFd fuel fd junk dev e =
      and_then-SameFd fd (get_info_op fuel junk ublk_cmd_get_dev_info2 dev) _
        (coded-SameFd fuel fd junk ublk_cmd_get_dev_info2 dev
          (legacy_op_to_ioctl ublk_cmd_get_dev_info2) e)
        (λ ret memory dev' e'.
          if-SameFd fd (is_neg ret && not (ublk_is_unprivileged dev'.dev_info)) _ _
            (coded-SameFd fuel fd junk ublk_cmd_get_dev_info dev'
              (legacy_op_to_ioctl ublk_cmd_get_dev_info) e')
            e')

  -- A deletion behind its initialisation.
  pub delete_known-SameFd :
      (fuel : ℕ) (junk : DevInfo) (dev : CtrlDev K)
      → SameFd dev.ctrl_fd (delete_known fuel junk dev)
  unfolding delete_known ublksrv_ctrl_stop_dev ublksrv_ctrl_del_dev
  delete_known-SameFd fuel junk dev =
      let fd = dev.ctrl_fd in
      and_then-SameFd fd (ublksrv_ctrl_get_info fuel junk dev) _
        (get_info-SameFd fuel fd junk dev refl)
        (λ ret memory dev1 e1. if-SameFd fd (is_neg ret) _ _ e1 (
          and_then-SameFd fd (ublksrv_ctrl_stop_dev fuel dev1) _ (ctrl_cmd-SameFd fuel fd _ dev1 e1)
            (λ ret' memory' dev2 e2.
              if-SameFd fd (is_neg ret') _ _ e2 (ctrl_cmd-SameFd fuel fd _ dev2 e2))))

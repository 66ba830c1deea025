-- ===== src/Ctrl/Send.antt =====
-- A control command is sent, and its completion waited for.
pub mod Ends
use go_ublksrv.Base.{
  ℕ, zero, suc, ◌+◌, ◌-◌, ◌^◌, ◌<◌, ◌≤◌, ◌≡◌, ◌++◌, Bool, true, false, refl, Option, none, some,
  List, [], ◌∷◌, arith, ◌==◌, if◌then◌else◌, Bool-cases, Option-cases, inl, inr,
}
use go_ublksrv.Word.{minus, is_neg, einval, eintr}
use go_ublksrv.Ioctl.{Ioctl}
use go_ublksrv.Dev.{DevInfo}
use go_ublksrv.Ctrl.Types.{Memory, own_info}
use go_ublksrv.Ctrl.Cmd.{CtrlCmdData, CtrlSqe, ublksrv_ctrl_init_cmd}

-- The part of liburing that a control command calls, and the driver behind it.
pub record CtrlRing (K : Type 0) : Type 0 where
  -- `io_uring_get_sqe`
  pub get_sqe : K → Option K
  -- `io_uring_submit`, of the one entry that is prepared
  pub submit : CtrlSqe → K → ℕ × K
  -- `io_uring_wait_cqe`
  pub wait_cqe : K → ℕ × K
  -- The completion: its result, and what the driver left in the memory of the command.
  pub cqe : K → ℕ × Memory
  -- `io_uring_cqe_seen`
  pub cqe_seen : K → K

-- What the wait relies on: a signal interrupts it only so many times.
pub record FewSignals {K : Type 0} (c : CtrlRing K) : Type 0 where
  pub signals : K → ℕ
  pub fewer :
      (k : K)
      → (c.wait_cqe k).0 ≡ minus eintr
      → (n : ℕ) × (signals k ≡ suc n) × (signals (c.wait_cqe k).1 ≡ n)

-- The fields of `struct ublksrv_ctrl_dev` that the commands use, and the entries submitted so far,
-- oldest first.
pub record CtrlDev (K : Type 0) : Type 0 where
  pub ring : K
  pub ctrl_fd : ℕ
  pub dev_info : DevInfo
  pub sent : List CtrlSqe

-- What a command comes to: its result, what is in its memory and the device after it; a failed
-- assertion; the fuel of the wait at an end.
pub data Answer (K : Type 0) : Type 0 where
  answered : (ret : ℕ) → Memory → CtrlDev K → Answer K
  asserted : Answer K
  still_waiting : Answer K

abbrev pub and_then :
    {K : Type 0} → Answer K → ((ret : ℕ) → Memory → CtrlDev K → Answer K) → Answer K
and_then (answered ret memory dev) f = f ret memory dev
and_then asserted f = asserted
and_then still_waiting f = still_waiting

module _ {K : Type 0} ⦃c : CtrlRing K⦄ where
  -- `do ... while (ret == -EINTR)`
  unfoldable pub wait_cqe : (fuel : ℕ) → K → Option (ℕ × K)
  wait_cqe zero k = none
  wait_cqe (suc fuel) k =
      let (ret, k') = c.wait_cqe k in
      let rest = wait_cqe fuel k' in if ret == minus eintr then rest else some (ret, k')

module _ {K : Type 0} ⦃m : Ioctl⦄ ⦃c : CtrlRing K⦄ where
  -- From `io_uring_submit` on.
  unfoldable pub submit_cmd : (fuel : ℕ) → Memory → CtrlSqe → CtrlDev K → Answer K
  unfolding wait_cqe
  submit_cmd fuel addr sqe dev =
      let (ret, k) = c.submit sqe dev.ring in
      let dev' = record dev { ring = k; sent = dev.sent ++ (sqe ∷ []) } in
      let waited = wait_cqe fuel k in
      if is_neg ret then answered ret addr dev' else elim waited [
        | none ↦ still_waiting
        | some (ret', k') ↦
            if is_neg ret'
            then answered ret' addr (record dev' { ring = k' })
            else let (res, memory) = c.cqe k' in
              answered res memory (record dev' { ring = c.cqe_seen k' })
      ]

  -- `__ublksrv_ctrl_cmd`
  unfoldable pub ublksrv_ctrl_cmd : (fuel : ℕ) → CtrlCmdData → CtrlDev K → Answer K
  unfolding submit_cmd ublksrv_ctrl_init_cmd
  ublksrv_ctrl_cmd fuel cd dev = elim (c.get_sqe dev.ring) [
    | none ↦ answered (minus einval) cd.addr dev
    | some k ↦ elim (ublksrv_ctrl_init_cmd dev.ctrl_fd dev.dev_info cd) [
      | none ↦ asserted
      | some sqe ↦ submit_cmd fuel cd.addr sqe (record dev { ring = k })
    ]
  ]

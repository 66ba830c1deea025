-- ===== src/Ctrl/Send/Ends.antt =====
-- A control command is answered, and sends at most one entry.
use go_ublksrv.Base.{
  ℕ, zero, suc, ◌^◌, ◌<◌, ◌≡◌, ◌≢◌, ◌⊎◌, ◌++◌, true, refl, none, some, [], ◌∷◌, arith, ◌==◌,
  Bool-cases, Option-cases, inl, inr,
}
use go_ublksrv.Word.{minus, is_neg, einval, eintr}
use go_ublksrv.Ioctl.{Ioctl, IsIoctl}
use go_ublksrv.Ctrl.Types.{Memory}
use go_ublksrv.Ctrl.Cmd.{CtrlCmdData, CtrlSqe, sendable, Carries, ctrl_init_cmd-Carries}
use go_ublksrv.Ctrl.Send.{
  CtrlRing, FewSignals, CtrlDev, answered, wait_cqe, submit_cmd, ublksrv_ctrl_cmd,
}

module _ {K : Type 0} ⦃c : CtrlRing K⦄ (few : FewSignals c) where
  -- The loop around `io_uring_wait_cqe` ends, once the fuel is above the number of interruptions,
  -- and its result is no interruption.
  pub wait_cqe-ends :
      (fuel : ℕ) (k : K)
      → few.signals k < fuel
      → (ret : ℕ) × (k' : K) × (wait_cqe fuel k ≡ some (ret, k')) × (ret ≢ minus eintr)
  unfolding wait_cqe
  wait_cqe-ends zero k h = absurd (omega arith)
  wait_cqe-ends (suc fuel) k h = elim (Bool-cases ((c.wait_cqe k).0 == minus eintr)) [
    | inl interrupted ↦
        let (n, now, later) = few.fewer k (ground arith) in
        let (ret, k', run, other) = wait_cqe-ends fuel (c.wait_cqe k).1 (omega arith) in
        (ret, k', ground arith, other)
    | inr ready ↦ ((c.wait_cqe k).0, (c.wait_cqe k).1, ground arith, ground arith)
  ]

-- The device after a command: only its ring and its log differ. Either the submission queue was
-- full, or one entry went out, which carries the command.
pub record Answered {K : Type 0} ⦃m : Ioctl⦄ ⦃c : CtrlRing K⦄ (cmd : CtrlCmdData) (dev : CtrlDev K)
    (ret : ℕ) (dev' : CtrlDev K) : Type 0 where
  pub same_info : dev'.dev_info ≡ dev.dev_info
  pub same_fd : dev'.ctrl_fd ≡ dev.ctrl_fd
  pub log :
      ((c.get_sqe dev.ring ≡ none) × (ret ≡ minus einval) × (dev'.sent ≡ dev.sent))
      ⊎ ((sqe : CtrlSqe) × (dev'.sent ≡ dev.sent ++ (sqe ∷ [])) × Carries dev.dev_info cmd sqe)

module _ {K : Type 0} ⦃m : Ioctl⦄ ⦃c : CtrlRing K⦄ (few : FewSignals c) where
  submit_cmd-ends :
      (fuel : ℕ) (addr : Memory) (sqe : CtrlSqe) (dev : CtrlDev K)
      → ((k : K) → few.signals k < fuel)
      → (ret : ℕ) × (memory : Memory) × (dev' : CtrlDev K) × (submit_cmd fuel addr sqe dev
          ≡ answered ret memory dev')
        × (dev'.dev_info ≡ dev.dev_info)
        × (dev'.ctrl_fd ≡ dev.ctrl_fd)
        × (dev'.sent ≡ dev.sent ++ (sqe ∷ []))
  unfolding submit_cmd
  submit_cmd-ends fuel addr sqe dev bound =
      let k = (c.submit sqe dev.ring).1 in
      let dev1 = record dev { ring = k; sent = dev.sent ++ (sqe ∷ []) } in
      let (ret, k', run, other) = wait_cqe-ends few fuel k (bound k) in
      elim (Bool-cases (is_neg (c.submit sqe dev.ring).0)) [
        | inl failed ↦ ((c.submit sqe dev.ring).0, addr, dev1, ground arith, refl, refl, refl)
        | inr sent ↦ elim (Bool-cases (is_neg ret)) [
          | inl failed ↦ (ret, addr, record dev1 { ring = k' }, ground arith, refl, refl, refl)
          | inr done_ ↦ (
            (c.cqe k').0,
            (c.cqe k').1,
            record dev1 { ring = c.cqe_seen k' },
            ground arith,
            refl,
            refl,
            refl,
          )
        ]
      ]

module _ {K : Type 0} ⦃m : Ioctl⦄ ⦃c : CtrlRing K⦄ (laws : IsIoctl m) (few : FewSignals c) where
  -- A command of the table, or one that is not to be translated, with a buffer below 2 ^ 16 bytes is answered, where the fuel is above the
  -- number of interruptions: no assertion fails, the device's `dev_info` and descriptor stay, and
  -- exactly one entry that carries the command goes out, or none and the result is -EINVAL, where
  -- the submission queue is full.
  pub ctrl_cmd-Answered :
      (fuel : ℕ) (cmd : CtrlCmdData) (dev : CtrlDev K)
      → ((k : K) → few.signals k < fuel)
      → sendable cmd ≡ true
      → cmd.len < 2 ^ 16
      → (ret : ℕ) × (memory : Memory) × (dev' : CtrlDev K) × (ublksrv_ctrl_cmd fuel cmd dev
          ≡ answered ret memory dev')
        × Answered cmd dev ret dev'
  unfolding ublksrv_ctrl_cmd
  ctrl_cmd-Answered fuel cmd dev bound known fits = elim (Option-cases (c.get_sqe dev.ring)) [
    | inl full ↦ (
      minus einval,
      cmd.addr,
      dev,
      ground arith,
      record { same_info = refl; same_fd = refl; log = inl (full, refl, refl) },
    )
    | inr (k, got) ↦
        let (sqe, made, fd, carries) =
          ctrl_init_cmd-Carries laws dev.ctrl_fd dev.dev_info cmd known fits in
        let (ret, memory, dev', run, info, same_fd, log) =
          submit_cmd-ends few fuel cmd.addr sqe (record dev { ring = k }) bound in
        (
          ret,
          memory,
          dev',
          ground arith,
          record { same_info = info; same_fd = same_fd; log = inr (sqe, log, carries) },
        )
  ]

-- ===== src/Ctrl/Params/Sets.antt =====
-- What a command on the parameters carries.
use go_ublksrv.Base.{
  ℕ, ◌^◌, ◌<◌, ◌≡◌, ◌++◌, ◌||◌, ◌&&◌, ◌⊎◌, true, false, refl, none, some, [], ◌∷◌, arith,
  if◌then◌else◌, Bool-cases, inl, inr,
}
use go_ublksrv.Bits.{has}
use go_ublksrv.Ioctl.{Ioctl, IsIoctl}
use go_ublksrv.Dev.{DevInfo, ublk_is_unprivileged}
use go_ublksrv.Ctrl.Types.{Params, Memory, own_params, path_params}
use go_ublksrv.Ctrl.Ops.{reads_only, writes, ublk_cmd_set_params, ublk_cmd_get_params}
use go_ublksrv.Ctrl.Cmd.{CtrlSqe, Carries, sendable}
use go_ublksrv.Word.{is_neg}
use go_ublksrv.Ctrl.Send.{CtrlRing, FewSignals, CtrlDev, answered, ublksrv_ctrl_cmd}
use go_ublksrv.Ctrl.Send.Ends.{ctrl_cmd-Answered}
use go_ublksrv.Ctrl.Info.Queries.{NeverFull}
use go_ublksrv.Ctrl.Params.{
  sizeof_params, sizeof_path_params, with_len, params_in, params_cmd, ublksrv_ctrl_set_params,
  ublksrv_ctrl_get_params,
}

-- The entry carries the parameters: alone, or behind the path of a device that the driver has to
-- check.
pub record CarriesParams ⦃m : Ioctl⦄ (op : ℕ) (info : DevInfo) (params : Params) (sqe : CtrlSqe)
    : Type 0 where
  pub number : m.ioc_nr sqe.off.0 ≡ op
  pub device : sqe.dev_id ≡ info.dev_id
  pub buffer :
      sqe.addr_len
      ≡ some (
          if ublk_is_unprivileged info
          then (path_params info.dev_id params, sizeof_path_params)
          else (own_params params, sizeof_params))
  pub path_len : sqe.data_path_len ≡ (if ublk_is_unprivileged info then some (0, 32) else none)

pub params_cmd-fits :
    (op : ℕ) (info : DevInfo) (params : Params)
    → (reads_only op || writes op) ≡ true
    → (sendable (params_cmd op info params) ≡ true) × ((params_cmd op info params).len < 2 ^ 16)
unfolding params_cmd has
params_cmd-fits op info params known = (ground (arith, known), ground arith)

module _ ⦃m : Ioctl⦄ (laws : IsIoctl m) where
  pub Carries-CarriesParams :
      (op : ℕ) (info : DevInfo) (params : Params) (sqe : CtrlSqe)
      → (reads_only op || writes op) ≡ true
      → Carries info (params_cmd op info params) sqe
      → CarriesParams op info (with_len params) sqe
  unfolding params_cmd has
  Carries-CarriesParams op info params sqe known c =
      let own = laws.nr_of_legacy op (ground (arith, known)) in
      elim (Bool-cases (ublk_is_unprivileged info)) [
        | inl unpriv ↦ record {
          number = ground (arith, c.number, own);
          device = c.device;
          buffer = ground (arith, c.buffer);
          path_len = ground (arith, c.inline_data);
        }
        | inr priv ↦ record {
          number = ground (arith, c.number, own);
          device = c.device;
          buffer = ground (arith, c.buffer);
          path_len = ground (arith, c.inline_data);
        }
      ]

module _ {K : Type 0} ⦃m : Ioctl⦄ ⦃c : CtrlRing K⦄ (laws : IsIoctl m) (few : FewSignals c)
    (room : NeverFull c) (fuel : ℕ) (bound : (k : K) → few.signals k < fuel) where
  params_cmd-sent :
      (op : ℕ) (params : Params) (dev : CtrlDev K)
      → (reads_only op || writes op) ≡ true
      → (ret : ℕ) × (memory : Memory) × (dev' : CtrlDev K) × (sqe : CtrlSqe) × (ublksrv_ctrl_cmd
            fuel
            (params_cmd op dev.dev_info params)
            dev
          ≡ answered ret memory dev')
        × (dev'.dev_info ≡ dev.dev_info)
        × (dev'.sent ≡ dev.sent ++ (sqe ∷ []))
        × CarriesParams op dev.dev_info (with_len params) sqe
  params_cmd-sent op params dev known =
      let (can, fits) = params_cmd-fits op dev.dev_info params known in
      let (ret, memory, dev', run, a) =
        ctrl_cmd-Answered laws few fuel (params_cmd op dev.dev_info params) dev bound can fits in
      let (k, got) = room dev.ring in
      elim a.log [
        | inl (full, _, _) ↦ absurd (ground arith)
        | inr (sqe, log, carries) ↦ (
          ret,
          memory,
          dev',
          sqe,
          run,
          a.same_info,
          log,
          Carries-CarriesParams laws op dev.dev_info params sqe known carries,
        )
      ]

  -- Setting and getting the parameters are answered, and each sends exactly one entry: its number,
  -- and the caller's parameters with their length filled in, behind the device's path where the
  -- device is unprivileged. Where the driver answers an error to an unprivileged caller, the
  -- parameters that were asked for stay as they were sent. The control ring is never full, and the
  -- fuel of each wait is above the number of its interruptions.
  pub params-CarriesParams :
      (params : Params) (dev : CtrlDev K)
      → ((ret : ℕ) × (memory : Memory) × (dev' : CtrlDev K) × (sqe : CtrlSqe)
          × (ublksrv_ctrl_set_params fuel params dev ≡ answered ret memory dev')
          × (dev'.sent ≡ dev.sent ++ (sqe ∷ []))
          × CarriesParams ublk_cmd_set_params dev.dev_info (with_len params) sqe)
        × ((ret : ℕ) × (got : Params) × (dev' : CtrlDev K) × (sqe : CtrlSqe)
            × (ublksrv_ctrl_get_params fuel params dev ≡ answered ret (own_params got) dev')
            × (dev'.sent ≡ dev.sent ++ (sqe ∷ []))
            × CarriesParams ublk_cmd_get_params dev.dev_info (with_len params) sqe
            × (((ublk_is_unprivileged dev.dev_info && is_neg ret) ≡ false)
                ⊎ (got ≡ with_len params)))
  unfolding ublksrv_ctrl_set_params ublksrv_ctrl_get_params
  params-CarriesParams params dev =
      let (ret, memory, dev', sqe, run, same, log, c) =
        params_cmd-sent ublk_cmd_set_params params dev refl in
      let (ret2, memory2, dev2, sqe2, run2, same2, log2, c2) =
        params_cmd-sent ublk_cmd_get_params params dev refl in
      (
        (
          ret,
          own_params (
              if ublk_is_unprivileged dev.dev_info
              then with_len params
              else params_in memory (with_len params)),
          dev',
          sqe,
          rw run refl,
          log,
          c,
        ),
        (
          ret2,
          (if ublk_is_unprivileged dev2.dev_info && is_neg ret2
              then with_len params
              else params_in memory2 (with_len params)),
          dev2,
          sqe2,
          rw run2 refl,
          log2,
          c2,
          ground arith,
        ),
      )

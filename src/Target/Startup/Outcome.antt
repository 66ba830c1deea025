-- ===== src/Target/Startup/Outcome.antt =====
-- What a start comes to.
use go_ublksrv.Base.{
  ℕ, ◌/◌, ◌^◌, ◌<◌, ◌≡◌, ◌⊎◌, ◌||◌, Bool, true, false, refl, some, List, [], ◌∷◌, arith, Bool-cases,
  inl, inr,
}
use go_ublksrv.Word.{u16, is_neg}
use go_ublksrv.Ioctl.{Ioctl, IsIoctl}
use go_ublksrv.Ctrl.Types.{Memory}
use go_ublksrv.Ctrl.Send.{CtrlRing, FewSignals, CtrlDev, answered}
use go_ublksrv.Ctrl.Info.Queries.{NeverFull}
use go_ublksrv.Ctrl.Add.{ublksrv_ctrl_add_dev, add_dev-tries}
use go_ublksrv.Ctrl.Params.{init_params}
use go_ublksrv.Ctrl.Params.Fits.{init_params-FitsDev}
use go_ublksrv.Ctrl.Delete.{CtrlAnswers, ublksrv_ctrl_init}
use go_ublksrv.Target.Startup.{
  StartStep, sends, registers, runs_daemon, waits, start_data, startup, start_result, or_default,
  def_nr_hw_queues, def_qd, def_buf_size,
}

-- What the goroutine does with a device after `add_dev` and `init_params`.
abbrev pub told : {K : Type 0} (add_failed params_failed : Bool) → CtrlDev K → List (StartStep K)
told false false dev = registers dev.dev_info.dev_id ∷ sends false ∷ runs_daemon dev ∷ []
told true false dev =
    sends true ∷ registers dev.dev_info.dev_id ∷ sends false ∷ runs_daemon dev ∷ []
told false true dev =
    sends true ∷ registers dev.dev_info.dev_id ∷ sends false ∷ runs_daemon dev ∷ []
told true true dev = sends true ∷ sends true ∷ registers dev.dev_info.dev_id ∷ waits ∷ []

-- The control device that is made for a start: number 0.
abbrev pub fresh_dev : {K : Type 0} → CtrlAnswers K → (queues queue_depth : ℕ) → CtrlDev K
fresh_dev answers queues queue_depth = record {
  ring = answers.ring_init.1;
  ctrl_fd = answers.open_ctrl;
  dev_info = record {
    nr_hw_queues = u16 (or_default def_nr_hw_queues queues);
    queue_depth = u16 (or_default def_qd queue_depth);
    state = 0;
    max_io_buf_bytes = def_buf_size;
    dev_id = 0;
    ublksrv_pid = 0;
    flags = 0;
    ublksrv_flags = 0;
    owner_uid = 0;
    owner_gid = 0;
  };
  sent = [];
}

start_result-told :
    {K : Type 0} (a p : Bool) (dev : CtrlDev K) → start_result (told a p dev) ≡ some (a || p)
start_result-told false false dev = refl
start_result-told false true dev = refl
start_result-told true false dev = refl
start_result-told true true dev = refl

module _ {K : Type 0} ⦃m : Ioctl⦄ ⦃c : CtrlRing K⦄ where
  startup-unmade :
      (fuel queues queue_depth size : ℕ) (answers : CtrlAnswers K)
      → (is_neg answers.open_ctrl || is_neg answers.ring_init.0) ≡ true
      → startup fuel queues queue_depth size answers ≡ sends true ∷ []
  unfolding startup ublksrv_ctrl_init start_data
  startup-unmade fuel queues queue_depth size answers no_device =
      elim (Bool-cases (is_neg answers.open_ctrl)) [
        | inl shut ↦ ground arith
        | inr opened ↦ ground arith
      ]

  startup-made :
      (fuel queues queue_depth size : ℕ) (answers : CtrlAnswers K)
      → (is_neg answers.open_ctrl || is_neg answers.ring_init.0) ≡ false
      → ublksrv_ctrl_init answers (start_data queues queue_depth)
        ≡ some (fresh_dev answers queues queue_depth)
  unfolding ublksrv_ctrl_init start_data
  startup-made fuel queues queue_depth size answers fine = ground arith

  startup-told :
      (fuel queues queue_depth size : ℕ) (answers : CtrlAnswers K) {dev dev1 dev2 : CtrlDev K}
      {ret ret' : ℕ} {memory memory' : Memory}
      → ublksrv_ctrl_init answers (start_data queues queue_depth) ≡ some dev
      → ublksrv_ctrl_add_dev fuel dev ≡ answered ret memory dev1
      → init_params fuel (size / 2 ^ 9) dev1 ≡ answered ret' memory' dev2
      → startup fuel queues queue_depth size answers ≡ told (is_neg ret) (is_neg ret') dev2
  unfolding startup
  startup-told fuel queues queue_depth size answers {ret = ret} {ret' = ret'} made added set_ =
      elim (Bool-cases (is_neg ret)) [
        | inl bad ↦ elim (Bool-cases (is_neg ret')) [
          | inl worse ↦ ground arith
          | inr good ↦ ground arith
        ]
        | inr good ↦ elim (Bool-cases (is_neg ret')) [
          | inl bad ↦ ground arith
          | inr too ↦ ground arith
        ]
      ]

module _ {K : Type 0} ⦃m : Ioctl⦄ ⦃c : CtrlRing K⦄ (laws : IsIoctl m) (few : FewSignals c)
    (room : NeverFull c) (fuel : ℕ) (bound : (k : K) → few.signals k < fuel) where
  -- What a start comes to. Where the control device cannot be opened or its ring not be made, it
  -- returns an error, and that is all. Otherwise it always asks for the device with number 0, and
  -- returns an error exactly where `add_dev` or `init_params` failed. All the same the device is then
  -- put into the map, under the number that it has, and its daemon is started, unless both failed:
  -- then the goroutine waits at the channel for ever. The control ring is never full, and the fuel of
  -- each wait is above the number of its interruptions.
  pub startup-Outcome :
      (queues queue_depth size : ℕ) (answers : CtrlAnswers K)
      → (((is_neg answers.open_ctrl || is_neg answers.ring_init.0) ≡ true)
          × (startup fuel queues queue_depth size answers ≡ sends true ∷ []))
        ⊎ ((ret : ℕ) × (memory : Memory) × (dev1 : CtrlDev K) × (ret' : ℕ) × (memory' : Memory)
            × (dev2 : CtrlDev K) × (ublksrv_ctrl_add_dev fuel (fresh_dev answers queues queue_depth)
                ≡ answered ret memory dev1)
            × (init_params fuel (size / 2 ^ 9) dev1 ≡ answered ret' memory' dev2)
            × (startup fuel queues queue_depth size answers ≡ told (is_neg ret) (is_neg ret') dev2)
            × (start_result (startup fuel queues queue_depth size answers)
                ≡ some (is_neg ret || is_neg ret')))
  startup-Outcome queues queue_depth size answers =
      elim (Bool-cases (is_neg answers.open_ctrl || is_neg answers.ring_init.0)) [
        | inl no_device ↦
            inl (no_device, startup-unmade fuel queues queue_depth size answers no_device)
        | inr fine ↦
            let dev = fresh_dev answers queues queue_depth in
            let made = startup-made fuel queues queue_depth size answers fine in
            let (ret, memory, dev1, added, _) = add_dev-tries laws few room fuel bound dev in
            let (ret', memory', dev2, _, _, set_, _, _, _) =
              init_params-FitsDev laws few room fuel bound (size / 2 ^ 9) dev1 in
            let run = startup-told fuel queues queue_depth size answers made added set_ in
            inr (
              ret,
              memory,
              dev1,
              ret',
              memory',
              dev2,
              added,
              set_,
              run,
              rw run (start_result-told (is_neg ret) (is_neg ret') dev2),
            )
      ]

-- ===== src/Ctrl/Params/Fits.antt =====
-- The parameters of a new device.
use go_ublksrv.Base.{ℕ, ◌+◌, ◌*◌, ◌^◌, ◌<◌, ◌≤◌, ◌≡◌, ◌++◌, refl, [], ◌∷◌, arith, true}
use go_ublksrv.Bits.{has}
use go_ublksrv.Ioctl.{Ioctl, IsIoctl}
use go_ublksrv.Dev.{DevInfo}
use go_ublksrv.Ctrl.Types.{Params, Memory}
use go_ublksrv.Ctrl.Cmd.{CtrlSqe}
use go_ublksrv.Ctrl.Send.{CtrlRing, FewSignals, CtrlDev, answered}
use go_ublksrv.Ctrl.Info.Queries.{NeverFull}
use go_ublksrv.Ctrl.Ops.{ublk_cmd_set_params}
use go_ublksrv.Ctrl.Params.{
  ublk_param_type_basic, ublk_param_type_discard, initial_params, init_params, with_len,
}
use go_ublksrv.Ctrl.Params.Sets.{CarriesParams, params-CarriesParams}

-- Parameters that fit the device's buffers: the largest request is the largest whole number of
-- sectors that a slot's buffer holds, no block is smaller than a sector or larger than a page, and
-- the basic and the discard parameters count.
pub record FitsDev (info : DevInfo) (dev_sectors : ℕ) (p : Params) : Type 0 where
  pub request_fits : p.basic.max_sectors * 512 ≤ info.max_io_buf_bytes
  pub request_largest : info.max_io_buf_bytes < (p.basic.max_sectors + 1) * 512
  pub size : p.basic.dev_sectors ≡ dev_sectors
  pub sector : 2 ^ p.basic.logical_bs_shift ≡ 512
  pub page : 2 ^ p.basic.physical_bs_shift ≡ 4096
  pub discard_fits : p.discard.max_discard_sectors * 512 < 2 ^ 32
  pub basic_counts : has p.types ublk_param_type_basic ≡ true
  pub discard_counts : has p.types ublk_param_type_discard ≡ true

initial_params-FitsDev : (info : DevInfo) (n : ℕ) → FitsDev info n (initial_params info n)
unfolding initial_params has
initial_params-FitsDev info n = record {
  request_fits = omega arith;
  request_largest = omega arith;
  size = refl;
  sector = refl;
  page = refl;
  discard_fits = omega arith;
  basic_counts = refl;
  discard_counts = refl;
}

module _ {K : Type 0} ⦃m : Ioctl⦄ ⦃c : CtrlRing K⦄ (laws : IsIoctl m) (few : FewSignals c)
    (room : NeverFull c) (fuel : ℕ) (bound : (k : K) → few.signals k < fuel) where
  -- `init_params` is answered and sends one SET_PARAMS with parameters that fit the device: a
  -- request of the largest size fits a slot's buffer, and no larger one does; the size is the one
  -- that was asked for; a logical block is 512 bytes and a physical one 4096; the largest discard
  -- has a size in bytes below 2 ^ 32. The control ring is never full, and the fuel of the wait is
  -- above the number of its interruptions.
  pub init_params-FitsDev :
      (dev_sectors : ℕ) (dev : CtrlDev K)
      → (ret : ℕ) × (memory : Memory) × (dev' : CtrlDev K) × (sqe : CtrlSqe) × (p : Params)
        × (init_params fuel dev_sectors dev ≡ answered ret memory dev')
        × (dev'.sent ≡ dev.sent ++ (sqe ∷ []))
        × CarriesParams ublk_cmd_set_params dev.dev_info p sqe
        × FitsDev dev.dev_info dev_sectors p
  unfolding init_params
  init_params-FitsDev dev_sectors dev =
      let p = initial_params dev.dev_info dev_sectors in
      let ((ret, memory, dev', sqe, run, log, carries), _) =
        params-CarriesParams laws few room fuel bound p dev in
      (ret, memory, dev', sqe, with_len p, run, log, carries, fits)
    where
      fits : FitsDev dev.dev_info dev_sectors (with_len (initial_params dev.dev_info dev_sectors))
      fits =
          let f = initial_params-FitsDev dev.dev_info dev_sectors in
          record {
            request_fits = f.request_fits;
            request_largest = f.request_largest;
            size = f.size;
            sector = f.sector;
            page = f.page;
            discard_fits = f.discard_fits;
            basic_counts = f.basic_counts;
            discard_counts = f.discard_counts;
          }

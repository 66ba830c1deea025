-- ===== src/Ctrl/Params/Store.antt =====
-- Parameters that were set are got back.
use go_ublksrv.Ioctl.{Ioctl}
use go_ublksrv.Ctrl.Types.{Params}

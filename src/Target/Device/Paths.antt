-- ===== src/Target/Device/Paths.antt =====
-- What is told of a device on every path of `getDeviceInfo`.
use go_ublksrv.Base.{◌*◌, ◌%◌, ◌^◌, ◌≡◌}
use go_ublksrv.Ioctl.{Ioctl}
use go_ublksrv.Dev.{DevInfo}
use go_ublksrv.Ctrl.Types.{Params}
use go_ublksrv.Ctrl.Info.Fallback.{Queries}
use go_ublksrv.Target.Device.{DeviceInfo}

-- What is told of a device with this info and these parameters: the size is that of its sectors, in
-- bytes and in 64 bits, and the block size that of its logical blocks.
pub record Tells (i : DevInfo) (p : Params) (info : DeviceInfo) : Type 0 where
  pub id : info.id ≡ i.dev_id
  pub queues : info.nr_hw_queues ≡ i.nr_hw_queues
  pub depth : info.queue_depth ≡ i.queue_depth
  pub state : info.state ≡ i.state
  pub buffers : info.max_io_buf_bytes ≡ i.max_io_buf_bytes
  pub pid : info.ublksrv_pid ≡ i.ublksrv_pid
  pub flags : (info.flags ≡ i.flags) × (info.ublksrv_flags ≡ i.ublksrv_flags)
  pub owner : (info.owner_uid ≡ i.owner_uid) × (info.owner_gid ≡ i.owner_gid)
  pub size : info.size ≡ p.basic.dev_sectors * 512 % 2 ^ 64
  pub block_size : info.block_size ≡ 2 ^ p.basic.logical_bs_shift % 2 ^ 64

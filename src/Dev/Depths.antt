-- ===== src/Dev/Depths.antt =====
-- The depths of a queue's rings.
use go_ublksrv.Base.{ℕ, ◌+◌, ◌-◌, ◌^◌, ◌<◌, ◌≡◌, arith, max, ◌==◌, if◌then◌else◌}
use go_ublksrv.Bits.{has}
use go_ublksrv.Word.{u32, int_lt}
use go_ublksrv.Dev.{Dev, ublksrv_f_need_eventfd}

pub record Depths : Type 0 where
  pub ring_depth : ℕ
  pub cq_depth : ℕ
  pub nr_ios : ℕ

-- The sums are unsigned and stored in an `int`; the comparison is between `int`s.
unfoldable pub ublksrv_calculate_depths : Dev → Depths
ublksrv_calculate_depths dev =
    let aio_depth : ℕ = if has dev.dev_info.ublksrv_flags ublksrv_f_need_eventfd then 1 else 0 in
    let depth = dev.dev_info.queue_depth in
    let tgt_depth = u32 (dev.tgt.tgt_ring_depth + aio_depth) in
    let ring = if int_lt tgt_depth depth then depth else tgt_depth in
    record {
      ring_depth = ring;
      cq_depth = if dev.cq_depth == 0 then ring else dev.cq_depth;
      nr_ios = u32 (depth + dev.tgt.extra_ios);
    }

-- The submission ring has an entry for each slot of the driver, and for each io of the target and
-- its eventfd: it is the larger of the two depths. Unless the device asks for another depth, the
-- completion ring is as deep. The depth of the target stays below 2 ^ 31 - 1.
pub calculate_depths-max :
    (dev : Dev)
    → dev.dev_info.queue_depth < 2 ^ 16
    → dev.tgt.tgt_ring_depth < 2 ^ 31 - 1
    → let d = ublksrv_calculate_depths dev in
      let events : ℕ = if has dev.dev_info.ublksrv_flags ublksrv_f_need_eventfd then 1 else 0 in
      (d.ring_depth ≡ max dev.dev_info.queue_depth (dev.tgt.tgt_ring_depth + events))
      × (d.cq_depth ≡ (if dev.cq_depth == 0 then d.ring_depth else dev.cq_depth))
unfolding ublksrv_calculate_depths
calculate_depths-max dev p q = (ground arith, ground arith)

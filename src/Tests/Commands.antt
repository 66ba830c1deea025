-- ===== src/Tests/Commands.antt =====
-- Commands, completions and requests at a concrete queue.
use go_ublksrv.Base.{some, map, ℕ, ◌≡◌, ◌↔◌, refl, arith, true, false, [], ◌∷◌}
use go_ublksrv.Bits.{has}
use go_ublksrv.Queue.Types.{AsyncCall, Queue, ok, blocked}
use go_ublksrv.Queue.IoCmd.{ublksrv_queue_io_cmd, ublksrv_complete_io}
use go_ublksrv.Queue.IoCmd.Lock.{lock-queue_io_cmd, queue_io_cmd_leaks}
use go_ublksrv.Queue.IoCmd.Commit.{Commits, complete_io-Commits}
use go_ublksrv.Queue.IoCmd.Twice.{committed, complete_io-twice}
use go_ublksrv.Queue.Request.{demo_handle_io_async}
use go_ublksrv.Queue.Request.Handover.{Describes, demo_handle-Describes}
use go_ublksrv.Tests.Machine.{
  Ring, linux, counting, little_endian, linux-IsIoctl, little_endian-IsHost,
}
use go_ublksrv.Tests.Devices.{waiting, working, slot, waiting-IsQueue, write_desc}

-- Slot 1 is busy, so that nothing can be sent for it.
busy_slot : ublksrv_queue_io_cmd 1 waiting ≡ ok 0 (record waiting { lock = true })
unfolding ublksrv_queue_io_cmd has
busy_slot = refl

abbrev nothing_sent : ℕ
nothing_sent = 0

lock-queue_io_cmd_example : (nothing_sent ≡ 1) ↔ (true ≡ false)
lock-queue_io_cmd_example = lock-queue_io_cmd 1 waiting busy_slot

queue_io_cmd_leaks_example :
    (ublksrv_queue_io_cmd 0 (record waiting { lock = true }) ≡ blocked)
    × (ublksrv_complete_io 0 8 (record waiting { lock = true }) ≡ blocked)
queue_io_cmd_leaks_example = queue_io_cmd_leaks 1 waiting busy_slot (omega arith) 0 8 refl

complete_io-Commits_example :
    (q' : Queue Ring) × (ublksrv_complete_io 1 4096 working ≡ ok 1 q')
    × Commits 1 4096 working (slot 1 0) (record { free = 2; ready = 1; shown = false }) q'
unfolding has
complete_io-Commits_example =
    complete_io-Commits linux-IsIoctl 1 4096 working (omega arith) refl refl refl refl

demo_handle-Describes_example :
    (q' : Queue Ring) × (c : AsyncCall) × (demo_handle_io_async 1 waiting ≡ ok 0 q')
    × (q'.calls ≡ c ∷ [])
    × (q'.tgt_io_inflight ≡ 1)
    × Describes write_desc 1 c
demo_handle-Describes_example =
    demo_handle-Describes little_endian-IsHost 1 waiting waiting-IsQueue (omega arith) (omega arith)
      (omega arith)

complete_io-twice_example :
    (q1 : Queue Ring) × (q2 : Queue Ring) × (ublksrv_complete_io 1 0xffff_fffb working ≡ ok 1 q1)
    × (ublksrv_complete_io 1 4096 q1 ≡ ok 1 q2)
    × (map committed q2.sqes ≡ (1, some 0xffff_fffb) ∷ (1, some 4096) ∷ [])
    × (q2.tgt_io_inflight ≡ 0)
unfolding has
complete_io-twice_example =
    complete_io-twice linux-IsIoctl 1 0xffff_fffb 4096 working (omega arith) refl refl refl refl
      refl

-- ===== src/Tests/Rounds.antt =====
-- Rounds of a queue's thread at concrete queues.
use go_ublksrv.Base.{
  if◌then◌else◌, map, ◌++◌, ◌&&◌, ℕ, false, ◌+◌, ◌≡◌, ◌↔◌, refl, arith, true, List, [], ◌∷◌, length,
}
use go_ublksrv.Bits.{has}
use go_ublksrv.Word.{minus, etime, enodev}
use go_ublksrv.Queue.Types.{Queue, ok}
use go_ublksrv.Queue.Process.{
  Completion, ublksrv_queue_is_done, wait_inflight, settle, ublksrv_process_io,
}
use go_ublksrv.Queue.IoCmd.Twice.{committed}
use go_ublksrv.Queue.Process.Wait.{CanFinish, Finished, answer_of, wait_inflight-Finished}
use go_ublksrv.Queue.Process.Returns.{process_io-returns}
use go_ublksrv.Queue.Flags.{ublksrv_queue_idle, ublksrv_queue_stopping}
use go_ublksrv.Queue.Process.Idle.{settle-effects}
use go_ublksrv.Queue.Process.Ending.{process_io-ends}
use go_ublksrv.Queue.Invariant.Defs.{Keeps, After}
use go_ublksrv.Queue.Invariant.Rounds.{process_io-Keeps}
use go_ublksrv.Tests.Machine.{
  Ring, linux, counting, little_endian, linux-IsIoctl, counting_room, shows_own, shows_few,
  room_for_shown,
}
use go_ublksrv.Tests.Devices.{waiting, working, stopping, working-IsQueue}

-- The target finishes both requests.
abbrev finishing : List Completion
finishing = record { tag = 1; res = 4096 } ∷ record { tag = 0; res = 4096 } ∷ []

process_io-Keeps_example : Keeps (After working) (ublksrv_process_io finishing working)
process_io-Keeps_example =
    process_io-Keeps linux-IsIoctl finishing working working-IsQueue shows_own
      (omega arith, (omega arith, tt))

working-CanFinish : CanFinish counting_room working
unfolding has
working-CanFinish = record {
  unlocked = refl;
  counted = omega arith;
  room = omega arith;
  tags_fit = omega arith;
  plain = (refl, (refl, tt));
}

process_io-returns_example :
    (r : ℕ) × (q' : Queue Ring) × (ublksrv_process_io finishing working ≡ ok r q')
    × (q'.lock ≡ false)
    × After working q'
process_io-returns_example =
    process_io-returns linux-IsIoctl counting_room room_for_shown finishing working working-IsQueue
      working-CanFinish shows_own (omega arith, (omega arith, tt)) (omega arith)

wait_inflight-Finished_example :
    (rest : List Completion) × (q' : Queue Ring) × (wait_inflight finishing working ≡ ok rest q')
    × (length rest + 2 ≡ 2)
    × Finished working q'
    × (used : List Completion) × (finishing ≡ used ++ rest)
    × (map committed q'.sqes ≡ map committed working.sqes ++ map answer_of used)
unfolding has
wait_inflight-Finished_example =
    wait_inflight-Finished linux-IsIoctl counting_room finishing working working-CanFinish
      (omega arith, (omega arith, tt)) (omega arith)

settle-effects_example :
    (has (settle (minus etime) 0 waiting).state ublksrv_queue_idle ≡ true)
    × (has (settle (minus etime) 0 waiting).state ublksrv_queue_stopping ≡ false)
    × ((settle (minus etime) 0 waiting).advised ≡ (
        if has (settle (minus etime) 0 waiting).state ublksrv_queue_idle
        then (0x1000, 0x8_0000) ∷ (0x1000, 0x8_0000) ∷ []
        else []))
    × ((settle (minus etime) 0 waiting).efd_writes ≡ (
        if has (settle (minus etime) 0 waiting).state ublksrv_queue_stopping && true
        then 9 ∷ []
        else []))
unfolding has
settle-effects_example = settle-effects (minus etime) 0 waiting

stopped : ublksrv_process_io [] stopping ≡ ok (minus enodev) stopping
unfolding ublksrv_process_io has
stopped = refl

process_io-ends_example : (true ≡ true) ↔ (ublksrv_queue_is_done stopping ≡ true)
process_io-ends_example = process_io-ends shows_few [] stopping stopped

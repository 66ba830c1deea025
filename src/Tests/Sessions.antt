-- ===== src/Tests/Sessions.antt =====
-- A session of a queue and its target.
use go_ublksrv.Base.{
  ℕ, ◌*◌, ◌≡◌, true, false, refl, Bool-cases, inl, inr, some, List, [], ◌∷◌, map, arith, ◌==◌,
}
use go_ublksrv.Bits.{has}
use go_ublksrv.UserData.{user_data_to_tag, is_target_io}
use go_ublksrv.Queue.Types.{Queue, ok}
use go_ublksrv.Queue.Protocol.{Event, target, allow_all, perform_all}
use go_ublksrv.Queue.Protocol.Steps.{Shows}
use go_ublksrv.Queue.Protocol.Refines.{AllLogged}
use go_ublksrv.Target.Types.{Request, type_read, type_write, type_unmap}
use go_ublksrv.Target.Bridge.Answers.{fails}
use go_ublksrv.Target.Session.{Act, gives, ends, submits, act_all}
use go_ublksrv.Target.Session.Begins.{begun, begun-Serves}
use go_ublksrv.Target.Session.Serves.{asks, no_result, act_all-Refines}
use go_ublksrv.Tests.Machine.{linux, little_endian, linux-IsIoctl}
use go_ublksrv.Tests.Devices.{queue_on}
use go_ublksrv.Tests.Lives.{
  Deep, giving_up, deep_room, deep-Empties, full_ring, at_driver, deep_Shows,
}
use go_ublksrv.Tests.Targets.{Disk, disk_handler, desc_of, blank}

disk-takes : (msg : Request) (s : Disk) → fails msg s ≡ false
disk-takes msg s = elim (Bool-cases (msg.type == type_read)) [
  | inl reads ↦ ground (arith, reads)
  | inr other ↦ elim (Bool-cases (msg.type == type_write)) [
    | inl writes ↦ ground (arith, other, writes)
    | inr neither ↦ elim (Bool-cases (msg.type == type_unmap)) [
      | inl unmaps ↦ ground (arith, other, neither, unmaps)
      | inr rest ↦ ground (arith, other, neither, rest)
    ]
  ]
]

-- A write and a read are given, the read ends and is submitted, and its slot is given again.
abbrev acts : List Act
acts =
    gives 0x20_0000 (desc_of 1) (1 ∷ 2 ∷ [])
    ∷ gives 0x20_0001 (desc_of 0) (0 ∷ 0 ∷ [])
    ∷ ends 1
    ∷ submits true
    ∷ gives 0x21_0001 (desc_of 3) []
    ∷ []

acts-allowed : allow_all (map asks acts) at_driver ≡ some (target ∷ target ∷ [])
unfolding allow_all is_target_io user_data_to_tag has
acts-allowed = refl

act_all-Refines_example :
    (es : List Event) × (r : ℕ) × (q' : Queue Deep) × (act_all acts (begun 2 blank) ≡ some es)
    × (map no_result es ≡ map asks acts)
    × (perform_all es 0 (queue_on full_ring 0 0 0) ≡ ok r q')
    × Shows deep_room (target ∷ target ∷ []) q'
    × AllLogged es (queue_on full_ring 0 0 0) q'
act_all-Refines_example =
    act_all-Refines linux-IsIoctl deep_room disk-takes (512 * 1024) 0 acts at_driver (begun 2 blank)
      (queue_on full_ring 0 0 0) deep-Empties deep_Shows (begun-Serves 2 blank (omega arith))
      (omega arith, (omega arith, (omega arith, tt))) acts-allowed

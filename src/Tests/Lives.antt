-- ===== src/Tests/Lives.antt =====
-- Histories of a queue, and whole threads.
use go_ublksrv.Base.{
  ℕ, zero, suc, ◌+◌, ◌-◌, ◌≡◌, Bool, true, refl, Option, none, some, List, [], ◌∷◌, arith,
}
use go_ublksrv.Bits.{has}
use go_ublksrv.Uring.{Cqe, Uring, HasRoom}
use go_ublksrv.UserData.{user_data_to_tag, is_target_io}
use go_ublksrv.Queue.Types.{Queue, Run, ok}
use go_ublksrv.Queue.Process.{Completion}
use go_ublksrv.Queue.Process.Wait.{CanFinish}
use go_ublksrv.Queue.Invariant.Defs.{Keeps, After}
use go_ublksrv.Queue.Init.Ready.{IsReady}
use go_ublksrv.Queue.Protocol.{
  Owner, driver, target, Event, handed, answered, submitted, allow_all, perform_all,
}
use go_ublksrv.Queue.Protocol.Steps.{Shows, Empties}
use go_ublksrv.Queue.Protocol.Refines.{AllLogged, perform_all-Refines}
use go_ublksrv.Queue.Protocol.Balance.{times_called, times_sent, answered_once}
use go_ublksrv.Queue.Thread.{serve, demo_null_io_handler_fn}
use go_ublksrv.Queue.Thread.Runs.{handler_fn-Keeps}
use go_ublksrv.Queue.Thread.Stops.{Stopping, serve-Stops}
use go_ublksrv.Tests.Machine.{
  Ring, linux, counting, little_endian, linux-IsIoctl, counting_room, shows_own,
}
use go_ublksrv.Tests.Devices.{small_dev, working, willing, queue_on, queue_on-IsQueue}

-- A ring of eight entries, behind which the driver gives up the command of tag 0 each time.
pub record Deep : Type 0 where
  pub free : ℕ

abbrev take_deep : Deep → Option Deep
take_deep r = elim r.free [ zero ↦ none | suc k ↦ some (record { free = k }) ]

abbrev abort_cqe : Cqe
abort_cqe = record { user_data = 0x20_0000; res = 0xffff_ffed }

instance abbrev pub giving_up : Uring Deep
giving_up = record {
  get_sqe = take_deep;
  sq_ready = λ r. 8 - r.free;
  submit_and_wait = λ timeout r. (1, record { free = 8 });
  cqes = λ r. abort_cqe ∷ [];
  cq_advance = λ n r. r;
}

take_deep-room :
    (r : Deep) (k : ℕ) → r.free ≡ suc k → (r' : Deep) × (take_deep r ≡ some r') × (r'.free ≡ k)
take_deep-room r k e = (record { free = k }, ground arith, refl)

pub deep_room : HasRoom giving_up
deep_room = record { room = Deep.free; take = take_deep-room }

pub deep-Empties : Empties giving_up deep_room 2
unfolding deep_room
deep-Empties timeout r = omega arith

abbrev pub full_ring : Deep
full_ring = record { free = 8 }

abbrev pub at_driver : List Owner
at_driver = driver ∷ driver ∷ []

-- Both slots are handed over, one is answered and submitted, and handed over again.
abbrev history : List Event
history =
    handed 0x20_0000 ∷ handed 0x20_0001 ∷ answered 1 4096 ∷ submitted true ∷ handed 0x21_0001 ∷ []

history_allowed : allow_all history at_driver ≡ some (target ∷ target ∷ [])
unfolding allow_all is_target_io user_data_to_tag has
history_allowed = refl

pub deep_Shows : Shows deep_room at_driver (queue_on full_ring 0 0 0)
unfolding has deep_room
deep_Shows = record {
  valid = queue_on-IsQueue full_ring;
  depth = refl;
  unlocked = refl;
  counted = refl;
  room = omega arith;
  plain = (refl, (refl, tt));
  running = refl;
}

perform_all-Refines_example :
    (r : ℕ) × (q' : Queue Deep) × (perform_all history 0 (queue_on full_ring 0 0 0) ≡ ok r q')
    × Shows deep_room (target ∷ target ∷ []) q'
    × AllLogged history (queue_on full_ring 0 0 0) q'
perform_all-Refines_example =
    perform_all-Refines linux-IsIoctl deep_room history 0 at_driver (queue_on full_ring 0 0 0)
      deep-Empties deep_Shows history_allowed

answered_once_example :
    (r : ℕ) × (q' : Queue Deep) × (perform_all history 0 (queue_on full_ring 0 0 0) ≡ ok r q')
    × (times_called 1 q' + 0 + 0 ≡ 0 + 1 + times_sent 1 q')
answered_once_example =
    answered_once linux-IsIoctl deep_room history 1 at_driver (queue_on full_ring 0 0 0)
      deep-Empties deep_Shows history_allowed

deep_Stopping : Stopping giving_up 2
unfolding user_data_to_tag is_target_io has
deep_Stopping = record {
  aborts = λ timeout r. (record { own = refl; tag = omega arith; res = refl }, tt);
  one = λ timeout r. omega arith;
  flushed = λ timeout r. refl;
  advanced = λ n r. refl;
}

deep_CanFinish : CanFinish deep_room (queue_on full_ring 0 0 0)
unfolding has deep_room
deep_CanFinish = record {
  unlocked = refl;
  counted = omega arith;
  room = omega arith;
  tags_fit = omega arith;
  plain = (refl, (refl, tt));
}

serve-Stops_example :
    (q' : Queue Deep) × (serve ([] ∷ [] ∷ []) (queue_on full_ring 0 0 0) ≡ ok true q')
serve-Stops_example =
    serve-Stops linux-IsIoctl deep_room [] [] [] (queue_on full_ring 0 0 0)
      (queue_on-IsQueue full_ring) deep_CanFinish deep_Stopping tt (omega arith)

abbrev one_answer : List Completion
one_answer = record { tag = 1; res = 4096 } ∷ []

thread_started :
    (run : Run Ring Bool) × (demo_null_io_handler_fn willing small_dev 0 working (one_answer ∷ [])
      ≡ some run)
unfolding demo_null_io_handler_fn has
thread_started = (_, refl)

handler_fn-Keeps_example :
    (q0 : Queue Ring) × IsReady small_dev 0 working q0 × Keeps (After q0) thread_started.0
handler_fn-Keeps_example =
    handler_fn-Keeps linux-IsIoctl counting_room willing small_dev 0 working (one_answer ∷ [])
      thread_started.1 (omega arith) (omega arith) (omega arith)
      (λ depth cq_depth made. omega arith) refl (omega arith) shows_own (omega arith, tt)

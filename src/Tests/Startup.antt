-- ===== src/Tests/Startup.antt =====
-- The initialisation of a queue on a system that refuses nothing.
use go_ublksrv.Base.{ℕ, ◌≡◌, refl, arith, some, List, [], ◌∷◌, true, false, get_elem?}
use go_ublksrv.Word.{u32}
use go_ublksrv.Bits.{has}
use go_ublksrv.Queue.Types.{Io, Queue, Run, ok}
use go_ublksrv.Queue.Init.{ublksrv_queue_init}
use go_ublksrv.Queue.Init.Ready.{IsReady, queue_init-IsReady}
use go_ublksrv.Dev.{Dev}
use go_ublksrv.UserData.{build_user_data, user_data_to_tag, is_target_io}
use go_ublksrv.Daemon.PidFile.{FileLog, ublksrv_create_pid_file}
use go_ublksrv.Daemon.Setup.{SetupAnswers, ublksrv_dev_init}
use go_ublksrv.Queue.Request.{demo_handle_io_async}
use go_ublksrv.Queue.Protocol.{Event, handed, perform_all}
use go_ublksrv.Queue.Private.{room_of}
use go_ublksrv.Queue.Private.Overruns.{private_data-Overruns}
use go_ublksrv.Tests.Machine.{Ring, linux, counting, little_endian, linux-IsIoctl, counting_room}
use go_ublksrv.Tests.Devices.{small_dev, working, willing}

started : (run : Run Ring ℕ) × (ublksrv_queue_init willing small_dev 0 working ≡ some run)
unfolding ublksrv_queue_init has
started = (_, refl)

queue_init-IsReady_example : (q : Queue Ring) × (started.0 ≡ ok 0 q) × IsReady small_dev 0 working q
queue_init-IsReady_example =
    queue_init-IsReady linux-IsIoctl counting_room willing small_dev 0 working started.1
      (omega arith) (omega arith) (omega arith) (λ depth cq_depth made. omega arith) refl
      (omega arith)

-- A device with no pid file, a queue of it, and its first handover.
abbrev files_unused : SetupAnswers
files_unused = record {
  allocates = true;
  opens_dev = 7;
  files = record { opens = 9; truncates = 0; writes_all = true };
}

abbrev empty_log : FileLog
empty_log = record { closed = []; unlinked = 0 }

daemon_dev :
    (dev : Dev) × ((ublksrv_dev_init small_dev.dev_info files_unused false 3 empty_log).0
      ≡ some dev)
unfolding ublksrv_dev_init ublksrv_create_pid_file
daemon_dev = (_, refl)

daemon_queue :
    (run : Run Ring ℕ) × (q : Queue Ring) × (ublksrv_queue_init willing daemon_dev.0 0 working
      ≡ some run)
    × (run ≡ ok 0 q)
unfolding daemon_dev ublksrv_queue_init has build_user_data
daemon_queue = (_, _, refl, refl)

abbrev first_handover : List Event
first_handover = handed 0x20_0000 ∷ []

handed_over :
    (r : ℕ) × (q : Queue Ring) × (io : Io) × (perform_all first_handover 0 daemon_queue.1 ≡ ok r q)
    × (get_elem? q.ios 0 ≡ some io)
unfolding daemon_dev daemon_queue perform_all has is_target_io user_data_to_tag
handed_over = (_, _, _, refl, refl)

again : (r : ℕ) × (q : Queue Ring) × (demo_handle_io_async 0 handed_over.1 ≡ ok r q)
unfolding daemon_dev daemon_queue handed_over demo_handle_io_async
again = (_, _, refl)

private_data-Overruns_example :
    (io' : Io) × (get_elem? again.1.ios 0 ≡ some io')
    × (io'.io_data.private_data.seq ≡ u32 handed_over.2.io_data.tag)
    × (room_of handed_over.2 ≡ 0)
    × (room_of io' ≡ 0)
private_data-Overruns_example =
    private_data-Overruns small_dev.dev_info files_unused false 3 empty_log willing 0 working
      first_handover 0 0 daemon_dev.1 daemon_queue.2 daemon_queue.3 handed_over.3 handed_over.4
      again.2

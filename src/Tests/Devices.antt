-- ===== src/Tests/Devices.antt =====
-- A device of two slots, and its queue at several moments.
use go_ublksrv.Base.{ℕ, ◌+◌, ◌*◌, refl, arith, false, some, [], ◌∷◌}
use go_ublksrv.Dev.{Dev}
use go_ublksrv.Queue.Types.{IoDesc, Io, Queue}
use go_ublksrv.Queue.Invariant.Defs.{IsQueue}
use go_ublksrv.Queue.Init.{Answers}
use go_ublksrv.Tests.Machine.{Ring}

abbrev pub small_dev : Dev
small_dev = record {
  tgt = record {
    tgt_ring_depth = 2;
    nr_fds = 1;
    fds = [];
    extra_ios = 1;
    io_data_size = 0;
    iowq_max_workers = (0, 0);
  };
  cdev_fd = 7;
  pid_file_fd = 8;
  dev_info = record {
    nr_hw_queues = 1;
    queue_depth = 2;
    state = 0;
    max_io_buf_bytes = 0x8_0000;
    dev_id = 0;
    ublksrv_pid = 100;
    flags = 64;
    ublksrv_flags = 2;
    owner_uid = 0;
    owner_gid = 0;
  };
  cq_depth = 0;
}

-- A write of eight sectors at the sector 16, for every slot.
abbrev pub write_desc : IoDesc
write_desc = record { op_flags = 1; nr_sectors = 8; start_sector = 16; addr = 0x1000 }

abbrev pub slot : (tag flags : ℕ) → Io
slot tag flags = record {
  buf_addr = 0x1000;
  flags = flags;
  result = 0;
  io_data = record {
    tag = tag;
    iod = some (tag * 24);
    private_data = record { size = 0; seq = 0 };
  };
}

abbrev pub fresh_ring : Ring
fresh_ring = record { free = 3; ready = 0; shown = false }

-- Two slots with these flags, and this many io in flight.
abbrev pub queue_on : {R : Type 0} → R → (first second inflight : ℕ) → Queue R
queue_on ring first second inflight = record {
  q_id = 0;
  q_depth = 2;
  max_io_buf_bytes = 0x8_0000;
  io_cmd_buf = λ _. write_desc;
  tgt_io_inflight = inflight;
  lock = false;
  signals = 0;
  state = 4;
  efd = 9;
  ring = ring;
  ios = slot 0 first ∷ slot 1 second ∷ [];
  sqes = [];
  calls = [];
  efd_writes = [];
  advised = [];
}

abbrev pub queue_with : (first second inflight : ℕ) → Queue Ring
queue_with = queue_on fresh_ring

-- Both slots wait for a request of the driver.
abbrev pub waiting : Queue Ring
waiting = queue_with 0 0 0

-- The target works on both.
abbrev pub working : Queue Ring
working = queue_with 0 0 2

abbrev pub stopping : Queue Ring
stopping = record waiting { state = 5 }

pub waiting-IsQueue : IsQueue waiting
waiting-IsQueue = record {
  depth_fits = omega arith;
  tags_fit = omega arith;
  count_fits = omega arith;
  slots = (
    record { tag = refl; iod = refl; flags = refl },
    (record { tag = refl; iod = refl; flags = refl }, tt),
  );
}

pub working-IsQueue : IsQueue working
working-IsQueue = record {
  depth_fits = omega arith;
  tags_fit = omega arith;
  count_fits = omega arith;
  slots = (
    record { tag = refl; iod = refl; flags = refl },
    (record { tag = refl; iod = refl; flags = refl }, tt),
  );
}

-- A system where every call of the initialisation succeeds.
abbrev pub willing : Answers Ring
willing = record {
  map_cmd_buf = some (λ _. write_desc);
  io_buf = λ i. some (0x1000 * i + 0x1000);
  ring_init = λ depth _. (0, record { free = depth; ready = 0; shown = false });
  left_over = λ i. 0xdead;
  register_files = 0;
}

-- A queue of two slots with any ring, where nothing is in flight.
pub queue_on-IsQueue : {R : Type 0} (ring : R) → IsQueue (queue_on ring 0 0 0)
queue_on-IsQueue ring = record {
  depth_fits = omega arith;
  tags_fit = omega arith;
  count_fits = omega arith;
  slots = (
    record { tag = refl; iod = refl; flags = refl },
    (record { tag = refl; iod = refl; flags = refl }, tt),
  );
}

-- ===== src/Tests/Machine.antt =====
-- A machine to run the queue on: the command encoding of Linux, little-endian words, and a ring that
-- counts its entries.
use go_ublksrv.Base.{
  ℕ, zero, suc, ◌+◌, ◌*◌, ◌/◌, ◌%◌, ◌^◌, ◌<◌, ◌≡◌, refl, arith, Bool, true, false, inr, Option,
  none, some, [], ◌∷◌, length, ltb, if◌then◌else◌,
}
use go_ublksrv.Word.{minus, etime}
use go_ublksrv.Ioctl.{Ioctl, IsIoctl}
use go_ublksrv.Host.{Host, IsHost}
use go_ublksrv.Uring.{Cqe, Uring, HasRoom}
use go_ublksrv.UserData.{user_data_to_tag, is_target_io}
use go_ublksrv.Queue.Invariant.Completions.{AllSane}
use go_ublksrv.Queue.Invariant.Rounds.{ShowsOwn}
use go_ublksrv.Queue.Process.Returns.{RoomForShown}

abbrev ioc : (dir type nr size : ℕ) → ℕ
ioc dir type nr size = nr % 256 + type % 256 * 2 ^ 8 + size % 2 ^ 14 * 2 ^ 16 + dir * 2 ^ 30

instance abbrev pub linux : Ioctl
linux = record {
  ior = ioc 2;
  iowr = ioc 3;
  ioc_nr = λ n. n % 256;
  ioc_type = λ n. n / 2 ^ 8 % 256;
  ioc_dir = λ n. n / 2 ^ 30;
  ioc_size = λ n. n / 2 ^ 16 % 2 ^ 14;
}

pub linux-IsIoctl : IsIoctl linux
linux-IsIoctl = record {
  nr_of_ior = λ type nr size h. omega arith;
  nr_of_iowr = λ type nr size h. omega arith;
  nr_of_legacy = λ nr h. omega arith;
  type_of_legacy = λ nr h. omega arith;
  dir_of_legacy = λ nr h. omega arith;
  size_of_legacy = λ nr h. omega arith;
}

-- Two, four and eight bytes the other way round.
abbrev swap16 : ℕ → ℕ
swap16 n = n % 2 ^ 8 * 2 ^ 8 + n / 2 ^ 8 % 2 ^ 8

abbrev swap32 : ℕ → ℕ
swap32 n = swap16 (n % 2 ^ 16) * 2 ^ 16 + swap16 (n / 2 ^ 16)

abbrev swap64 : ℕ → ℕ
swap64 n = swap32 (n % 2 ^ 32) * 2 ^ 32 + swap32 (n / 2 ^ 32)

instance abbrev pub little_endian : Host
little_endian = record {
  htole16 = λ n. n;
  htole32 = λ n. n;
  htole64 = λ n. n;
  le16toh = λ n. n;
  le32toh = λ n. n;
  le64toh = λ n. n;
  htobe16 = swap16;
  htobe32 = swap32;
  htobe64 = swap64;
  be16toh = swap16;
  be32toh = swap32;
  be64toh = swap64;
}

pub little_endian-IsHost : IsHost little_endian
little_endian-IsHost = record { undo16 = λ n h. refl; undo32 = λ n h. refl; undo64 = λ n h. refl }

-- Free places and prepared entries; whether the driver shows a fetched request.
pub record Ring : Type 0 where
  pub free : ℕ
  pub ready : ℕ
  pub shown : Bool

abbrev take_sqe : Ring → Option Ring
take_sqe r = elim r.free [ zero ↦ none | suc k ↦ some (record r { free = k; ready = r.ready + 1 }) ]

-- Tag 1 has been fetched with no error.
abbrev pub shown_cqe : Cqe
shown_cqe = record { user_data = 0x20_0001; res = 0 }

instance abbrev pub counting : Uring Ring
counting = record {
  get_sqe = take_sqe;
  sq_ready = Ring.ready;
  submit_and_wait = λ timeout r.
      if ltb 0 r.ready
      then (r.ready, record { free = r.free + r.ready; ready = 0; shown = true })
      else (minus etime, record r { shown = false });
  cqes = λ r. if r.shown then shown_cqe ∷ [] else [];
  cq_advance = λ n r. record r { shown = false };
}

abbrev take_room :
    (r : Ring) (k : ℕ) → r.free ≡ suc k → (r' : Ring) × (take_sqe r ≡ some r') × (r'.free ≡ k)
take_room r k e = (record r { free = k; ready = r.ready + 1 }, ground arith, refl)

abbrev pub counting_room : HasRoom counting
counting_room = record { room = Ring.free; take = take_room }

own_if : (shown : Bool) → AllSane 2 (if shown then shown_cqe ∷ [] else [])
unfolding user_data_to_tag is_target_io
own_if true = (inr (omega arith), tt)
own_if false = tt

pub shows_own : ShowsOwn counting 2
shows_own r = own_if r.shown

few_if : (shown : Bool) → length (if shown then shown_cqe ∷ [] else []) < 2 ^ 31
few_if true = omega arith
few_if false = omega arith

pub shows_few : (r : Ring) → length (counting.cqes r) < 2 ^ 31
shows_few r = few_if r.shown

pub room_for_shown : RoomForShown counting counting_room
room_for_shown timeout r = ground arith

-- ===== src/Queue/Types.antt =====
-- The structures of a queue (ublkhelper.h), and the run of a function on one.
use go_ublksrv.Base.{ℕ, Bool, Option, List, ◌≡◌, refl}

-- `struct ublksrv_io_desc`, written by the driver.
pub record IoDesc : Type 0 where
  pub op_flags : ℕ  -- __u32
  pub nr_sectors : ℕ  -- __u32
  pub start_sector : ℕ  -- __u64
  pub addr : ℕ  -- __u64

-- The block of `malloc(io_data_size)` behind `private_data`: its size, and the `seq` of the
-- `struct longhorn_io_data` that the handler puts behind a `struct ublk_io_tgt` in it.
pub record PrivateData : Type 0 where
  pub size : ℕ
  pub seq : ℕ  -- uint32_t

-- `struct ublk_io_data`. `iod` is an offset into `io_cmd_buf`, `none` for NULL.
pub record IoData : Type 0 where
  pub tag : ℕ
  pub iod : Option ℕ
  pub private_data : PrivateData

-- `struct ublk_io`.
pub record Io : Type 0 where
  pub buf_addr : ℕ
  pub flags : ℕ  -- unsigned int
  pub result : ℕ  -- unsigned int
  pub io_data : IoData

-- `struct ublksrv_io_cmd`. `result` is written for a commit only: `none` is what the submission
-- entry held before.
pub record IoCmd : Type 0 where
  pub q_id : ℕ  -- __u16
  pub tag : ℕ  -- __u16
  pub result : Option ℕ  -- __s32
  pub addr : ℕ  -- __u64

-- The fields of a submission entry that the queue writes, with the command in its `addr3` area.
-- `off` is the pair of words that `ublksrv_set_sqe_cmd_op` writes.
pub record IoSqe : Type 0 where
  pub fd : ℕ
  pub opcode : ℕ
  pub flags : ℕ
  pub rw_flags : ℕ
  pub off : ℕ × ℕ
  pub user_data : ℕ
  pub cmd : IoCmd

-- `struct message`.
pub record Message : Type 0 where
  pub magic : ℕ  -- uint16_t
  pub seq : ℕ  -- uint32_t
  pub type : ℕ  -- uint32_t
  pub offset : ℕ  -- int64_t, as its 64-bit pattern
  pub size : ℕ  -- uint32_t
  pub data_length : ℕ  -- uint32_t

-- A call of `onRequestAsync`: the request, the type as an `int`, the second `struct iovec`, and the
-- tag of the io data.
pub record AsyncCall : Type 0 where
  pub req : Message
  pub op_type : ℕ
  pub iov_base : ℕ
  pub iov_len : ℕ
  pub tag : ℕ

-- `struct _ublksrv_queue` over a ring `R`. What the functions do outside the structure is kept as
-- lists, oldest first: the submission entries filled, the calls of `onRequestAsync`, the
-- descriptors that an event was written to, and the buffers given to `madvise`. `signals` counts
-- the signals of `cond`, and `lock` says that the mutex `lock` is held.
pub record Queue (R : Type 0) : Type 0 where
  pub q_id : ℕ
  pub q_depth : ℕ
  pub max_io_buf_bytes : ℕ  -- of q->dev->ctrl_dev->dev_info
  pub io_cmd_buf : ℕ → IoDesc  -- by offset
  pub tgt_io_inflight : ℕ  -- _Atomic int
  pub lock : Bool
  pub signals : ℕ
  pub state : ℕ  -- unsigned
  pub efd : ℕ  -- int
  pub ring : R
  pub ios : List Io
  pub sqes : List IoSqe
  pub calls : List AsyncCall
  pub efd_writes : List ℕ
  pub advised : List (ℕ × ℕ)

-- What a call comes to: a value and the queue after it; a wait that nobody ends; a read outside
-- `ios`, or through NULL; a failed assertion.
pub data Run (R : Type 0) (A : Type 0) : Type 0 where
  ok : A → Queue R → Run R A
  blocked : Run R A
  fault : Run R A
  abort : Run R A

module _ {R A B : Type 0} where
  abbrev pub and_then : Run R A → (A → Queue R → Run R B) → Run R B
  and_then (ok a q) f = f a q
  and_then blocked f = blocked
  and_then fault f = fault
  and_then abort f = abort

  infixl 5 ◌>>=◌ ◌>>◌
  abbrev pub ◌>>=◌ : (Queue R → Run R A) → (A → Queue R → Run R B) → Queue R → Run R B
  ◌>>=◌ m f q = and_then (m q) f

  abbrev pub ◌>>◌ : (Queue R → Run R A) → (Queue R → Run R B) → Queue R → Run R B
  ◌>>◌ m k q = and_then (m q) (λ _. k)

  pub and_then-ok :
      (r : Run R A) (f : A → Queue R → Run R B) {b : B} {q' : Queue R}
      → and_then r f ≡ ok b q'
      → (a : A) × (q : Queue R) × (r ≡ ok a q) × (f a q ≡ ok b q')
  and_then-ok (ok a q) f e = (a, q, refl, e)
  and_then-ok blocked f e = cc
  and_then-ok fault f e = cc
  and_then-ok abort f e = cc

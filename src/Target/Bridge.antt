-- ===== src/Target/Bridge.antt =====
-- A request between the C code and the handlers: `onRequestAsync` (c_bridge.go).
pub mod Answers
pub mod Stale
pub mod Stores
use go_ublksrv.Base.{
  ℕ, ◌*◌, ◌^◌, ◌-◌, ◌+◌, Bool, true, false, Option, none, some, List, [], ◌∷◌, ◌++◌, ◌==◌, length,
  if◌then◌else◌,
}
use go_ublksrv.Word.{u32, minus}
use go_ublksrv.Queue.Types.{IoDesc, AsyncCall, Message}
use go_ublksrv.Queue.Request.{
  get_nr_sectors, longhorn_cmd_type_read, longhorn_cmd_type_write, longhorn_cmd_type_unmap,
}
use go_ublksrv.Target.Types.{Request, Slice, bytes, minus_one}
use go_ublksrv.Target.Handler.{IoHandler, Handled, handled, panics, stuck, handle_request, copy}

abbrev pub eio : ℕ
eio = 5

-- What a goroutine has: its message, the type, the tag, and the bytes at `iov_base`.
pub record Job : Type 0 where
  pub msg : Request
  pub op_type : ℕ
  pub tag : ℕ
  pub buffer : List ℕ

-- A call that finds no device; that waits for a message; that starts a goroutine.
pub data Taken : Type 0 where
  no_device : Taken
  no_message : Taken
  started : Job → (msg_chan : List Request) → Taken

-- The message of a call. The words of the request are read as they are, with no change of byte
-- order.
unfoldable pub fill_request : AsyncCall → (buffer : List ℕ) → Request → Request
fill_request call buffer msg = record msg {
  size = call.req.size;
  seq = call.req.seq;
  type = call.op_type;
  offset = call.req.offset;
  wdata =
      if call.op_type == longhorn_cmd_type_write
      then record { array = buffer; len = length buffer }
      else msg.wdata;
}

abbrev pub job_of : AsyncCall → (buffer : List ℕ) → Request → Job
job_of call buffer msg = record {
  msg = fill_request call buffer msg;
  op_type = call.op_type;
  tag = call.tag;
  buffer = buffer;
}

-- The part of `onRequestAsync` that the queue's thread runs. `known` says that the device is in the
-- map, and `buffer` is what is at `iov_base`, `iov_len` bytes.
unfoldable pub on_request_async :
    (known : Bool) → (msg_chan : List Request) → AsyncCall → (buffer : List ℕ) → Taken
unfolding fill_request
on_request_async false msg_chan call buffer = no_device
on_request_async true [] call buffer = no_message
on_request_async true (msg ∷ msg_chan) call buffer = started (job_of call buffer msg) msg_chan

-- What the goroutine comes to: the calls of `ublksrv_complete_io` in order, with tag and result, the
-- bytes at `iov_base`, the message that it gives back, and what is stored.
pub data Answer (S : Type 0) : Type 0 where
  answers : List (ℕ × ℕ) → (buffer : List ℕ) → Request → S → Answer S
  dies : Answer S
  waits : Answer S

abbrev pub answer_size : (op_type : ℕ) → IoDesc → ℕ
answer_size op_type iod =
    if op_type == longhorn_cmd_type_unmap then 0 else u32 (get_nr_sectors iod * 2 ^ 9)

-- What the goroutine does with a message that is completed. `iod` is the descriptor of the tag when
-- it is read.
unfoldable pub finish_request : {S : Type 0} → Job → (iod : IoDesc) → Request → S → Answer S
finish_request job iod msg s =
    let failure : List (ℕ × ℕ) =
      if msg.result == minus_one then (job.tag, minus eio) ∷ [] else [] in
    let filled =
      if job.op_type == longhorn_cmd_type_read
      then copy job.buffer (bytes msg.rdata)
      else job.buffer in
    answers (failure ++ ((job.tag, answer_size job.op_type iod) ∷ [])) filled
      (record msg { complete = msg.complete - 1 }) s

-- The goroutine.
unfoldable pub answer_request : {S : Type 0} ⦃h : IoHandler S⦄ → Job → (iod : IoDesc) → S → Answer S
answer_request job iod s = elim (handle_request job.msg s) [
  | panics ↦ dies
  | stuck ↦ waits
  | handled msg s' ↦ finish_request job iod msg s'
]

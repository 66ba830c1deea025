-- ===== src/Queue/Request.antt =====
-- A fetched request is handed to the target: the message, and the call of `onRequestAsync`.
pub mod Handover
use go_ublksrv.Base.{
  ℕ, ◌+◌, ◌*◌, ◌^◌, bit_and, Option, none, some, [], ◌∷◌, ◌++◌, ◌==◌, if◌then◌else◌, get_elem?, set,
}
use go_ublksrv.Word.{u32, u64, minus}
use go_ublksrv.Host.{Host, cpu_to_le64}
use go_ublksrv.Queue.Types.{
  IoDesc, Io, IoData, PrivateData, Message, AsyncCall, Queue, Run, ok, fault,
}

abbrev pub ublk_io_op_read : ℕ
ublk_io_op_read = 0

abbrev pub ublk_io_op_write : ℕ
ublk_io_op_write = 1

abbrev pub ublk_io_op_discard : ℕ
ublk_io_op_discard = 3

abbrev pub longhorn_cmd_type_read : ℕ
longhorn_cmd_type_read = 0

abbrev pub longhorn_cmd_type_write : ℕ
longhorn_cmd_type_write = 1

abbrev pub longhorn_cmd_type_unmap : ℕ
longhorn_cmd_type_unmap = 7

abbrev pub longhorn_message_magic : ℕ
longhorn_message_magic = 0x1b01

unfoldable pub ublksrv_get_op : IoDesc → ℕ
ublksrv_get_op iod = bit_and iod.op_flags 0xff

-- An `int`; -1 for an operation that has no Longhorn command.
unfoldable pub req_to_longhorn_cmd_type : IoDesc → ℕ
unfolding ublksrv_get_op
req_to_longhorn_cmd_type iod =
    let op = ublksrv_get_op iod in
    if op == ublk_io_op_read
    then longhorn_cmd_type_read
    else if op == ublk_io_op_write
    then longhorn_cmd_type_write
    else if op == ublk_io_op_discard
    then longhorn_cmd_type_unmap
    else minus 1

unfoldable pub get_nr_sectors : IoDesc → ℕ
get_nr_sectors iod = iod.nr_sectors

-- `longhorn_data->seq` is `seq`; the `uint32_t` shifts wrap.
unfoldable pub longhorn_build_req : ⦃h : Host⦄ → IoDesc → (seq type : ℕ) → Message
unfolding cpu_to_le64
longhorn_build_req ⦃h⦄ iod seq type = record {
  magic = h.htole16 longhorn_message_magic;
  seq = h.htole32 seq;
  type = h.htole32 type;
  offset = cpu_to_le64 (u64 (iod.start_sector * 2 ^ 9));
  size = h.htole32 (u32 (iod.nr_sectors * 2 ^ 9));
  data_length =
      if type == longhorn_cmd_type_write
      then h.htole32 (u32 (iod.nr_sectors * 2 ^ 9))
      else h.htole32 0;
}

-- `longhorn_data->seq = data->tag`.
abbrev pub with_seq : Io → Io
with_seq io =
    let own = io.io_data in
    record io {
      io_data = record own { private_data = record own.private_data { seq = u32 own.tag } };
    }

abbrev pub call_for : ⦃h : Host⦄ → IoDesc → IoData → AsyncCall
call_for iod own =
    let type = req_to_longhorn_cmd_type iod in
    record {
      req = longhorn_build_req iod (u32 own.tag) type;
      op_type = type;
      iov_base = iod.addr;
      iov_len = u32 (iod.nr_sectors * 2 ^ 9);
      tag = own.tag;
    }

module _ {R : Type 0} ⦃h : Host⦄ where
  -- `demo_handle_io_async(q, &q->ios[tag].data)`. An unsupported operation is printed and handed
  -- over all the same.
  unfoldable pub demo_handle_io_async : (tag : ℕ) → Queue R → Run R ℕ
  unfolding req_to_longhorn_cmd_type longhorn_build_req
  demo_handle_io_async tag q = elim (get_elem? q.ios tag) [
    | none ↦ fault
    | some io ↦ elim io.io_data.iod [
      | none ↦ fault
      | some offset ↦ ok 0 (record q {
        ios = set q.ios tag (with_seq io);
        calls = q.calls ++ (call_for (q.io_cmd_buf offset) io.io_data ∷ []);
        tgt_io_inflight = u32 (q.tgt_io_inflight + 1);
      })
    ]
  ]

-- ===== src/Queue/Request/Handover.antt =====
-- What the target receives of a request that the driver hands to a slot.
use go_ublksrv.Base.{
  ℕ, ◌+◌, ◌*◌, ◌^◌, ◌<◌, ◌≡◌, ◌++◌, [], ◌∷◌, bit_and, refl, some, arith, set, ◌==◌, if◌then◌else◌,
  Bool-cases, inl, inr,
}
use go_ublksrv.Word.{u32, minus}
use go_ublksrv.Host.{Host, IsHost, le16_to_cpu, le32_to_cpu, le64_to_cpu, cpu_to_le64}
use go_ublksrv.Queue.Types.{IoDesc, Io, AsyncCall, Queue, ok}
use go_ublksrv.Dev.Buffers.{sizeof_io_desc}
use go_ublksrv.Queue.Invariant.Defs.{IsQueue}
use go_ublksrv.Queue.Invariant.Slots.{get_elem?-some, slot_at}
use go_ublksrv.Queue.Request.{
  with_seq, ublk_io_op_read, ublk_io_op_write, ublk_io_op_discard, longhorn_cmd_type_read,
  longhorn_cmd_type_write, longhorn_cmd_type_unmap, longhorn_message_magic,
  req_to_longhorn_cmd_type, longhorn_build_req, call_for, demo_handle_io_async,
}

-- The Longhorn type that the request should have, by its operation; -1 for any other.
abbrev pub type_of_op : ℕ → ℕ
type_of_op op =
    if op == ublk_io_op_read
    then longhorn_cmd_type_read
    else if op == ublk_io_op_write
    then longhorn_cmd_type_write
    else if op == ublk_io_op_discard
    then longhorn_cmd_type_unmap
    else minus 1

-- The call describes the request `iod` of slot `tag`, in bytes.
pub record Describes ⦃h : Host⦄ (iod : IoDesc) (tag : ℕ) (c : AsyncCall) : Type 0 where
  pub magic : le16_to_cpu c.req.magic ≡ longhorn_message_magic
  pub seq : le32_to_cpu c.req.seq ≡ tag
  pub type : le32_to_cpu c.req.type ≡ type_of_op (bit_and iod.op_flags 0xff)
  pub offset : le64_to_cpu c.req.offset ≡ iod.start_sector * 512
  pub size : le32_to_cpu c.req.size ≡ iod.nr_sectors * 512
  pub data_length :
      le32_to_cpu c.req.data_length
      ≡ (if bit_and iod.op_flags 0xff == ublk_io_op_write then iod.nr_sectors * 512 else 0)
  pub op_type : c.op_type ≡ type_of_op (bit_and iod.op_flags 0xff)
  pub base : c.iov_base ≡ iod.addr
  pub len : c.iov_len ≡ iod.nr_sectors * 512
  pub own_tag : c.tag ≡ tag

module _ ⦃h : Host⦄ (laws : IsHost h) where
  back32 : (n m : ℕ) → n ≡ m → m < 2 ^ 32 → le32_to_cpu (h.htole32 n) ≡ m
  unfolding le32_to_cpu
  back32 n m e fits = rw e (laws.undo32 m fits)

  back64 : (n m : ℕ) → n ≡ m → m < 2 ^ 64 → le64_to_cpu (cpu_to_le64 n) ≡ m
  unfolding le64_to_cpu cpu_to_le64
  back64 n m e fits = rw e (laws.undo64 m fits)

  type_fits : (iod : IoDesc) → req_to_longhorn_cmd_type iod < 2 ^ 32
  unfolding req_to_longhorn_cmd_type
  type_fits iod = ground arith

  -- Only a write has data.
  data_length-back :
      (iod : IoDesc)
      → iod.nr_sectors < 2 ^ 23
      → le32_to_cpu (
          if req_to_longhorn_cmd_type iod == longhorn_cmd_type_write
          then h.htole32 (u32 (iod.nr_sectors * 2 ^ 9))
          else h.htole32 0)
        ≡ (if bit_and iod.op_flags 0xff == ublk_io_op_write then iod.nr_sectors * 512 else 0)
  unfolding req_to_longhorn_cmd_type
  data_length-back iod sectors = elim (Bool-cases (bit_and iod.op_flags 0xff == ublk_io_op_write)) [
    | inl write ↦
        ground (arith, back32 (u32 (iod.nr_sectors * 2 ^ 9)) (iod.nr_sectors * 512) (omega arith))
    | inr other ↦ ground (arith, back32 0 0 refl)
  ]

  call_for-Describes :
      (iod : IoDesc) (io : Io) (tag : ℕ)
      → io.io_data.tag ≡ tag
      → tag < 2 ^ 32
      → iod.nr_sectors < 2 ^ 23
      → iod.start_sector < 2 ^ 55
      → Describes iod tag (call_for iod io.io_data)
  unfolding longhorn_build_req req_to_longhorn_cmd_type le16_to_cpu le32_to_cpu le64_to_cpu
  call_for-Describes iod io tag e fits sectors start = record {
    magic = laws.undo16 0x1b01 (omega arith);
    seq = back32 (u32 io.io_data.tag) tag (omega arith) fits;
    type = back32 (req_to_longhorn_cmd_type iod) _ refl (type_fits iod);
    offset = back64 _ (iod.start_sector * 512) (omega arith) (omega arith);
    size = back32 _ (iod.nr_sectors * 512) (omega arith) (omega arith);
    data_length = data_length-back iod sectors;
    op_type = refl;
    base = refl;
    len = omega arith;
    own_tag = e;
  }

module _ {R : Type 0} ⦃h : Host⦄ (laws : IsHost h) where
  -- A request of a well-formed queue's slot is handed over: one call of `onRequestAsync` is added,
  -- which describes the driver's descriptor of that slot, and one io more is in flight. An
  -- operation that is no read, write or discard is handed over too, with the type -1. The size
  -- and the offset are exact for descriptors below 2 ^ 23 sectors that start below sector 2 ^ 55.
  pub demo_handle-Describes :
      (tag : ℕ) (q : Queue R)
      → IsQueue q
      → tag < q.q_depth
      → (q.io_cmd_buf (tag * sizeof_io_desc)).nr_sectors < 2 ^ 23
      → (q.io_cmd_buf (tag * sizeof_io_desc)).start_sector < 2 ^ 55
      → (q' : Queue R) × (c : AsyncCall) × (demo_handle_io_async tag q ≡ ok 0 q')
        × (q'.calls ≡ q.calls ++ (c ∷ []))
        × (q'.tgt_io_inflight ≡ u32 (q.tgt_io_inflight + 1))
        × Describes (q.io_cmd_buf (tag * sizeof_io_desc)) tag c
  unfolding demo_handle_io_async
  demo_handle-Describes tag q v lt sectors start =
      let (io, slot) = get_elem?-some q.ios tag (omega arith) in
      let s = slot_at q.q_depth q.ios tag v.slots slot in
      let offset = tag * sizeof_io_desc in
      let has_iod : io.io_data.iod ≡ some offset = ground arith in
      let c = call_for (q.io_cmd_buf offset) io.io_data in
      (
        record q {
          ios = set q.ios tag (with_seq io);
          calls = q.calls ++ (c ∷ []);
          tgt_io_inflight = u32 (q.tgt_io_inflight + 1);
        },
        c,
        ground arith,
        refl,
        refl,
        call_for-Describes laws (q.io_cmd_buf offset) io tag s.tag (omega arith) sectors start,
      )

-- ===== src/Target/Bridge/Answers.antt =====
-- What a goroutine answers on every branch, and what a failure leaves behind.
use go_ublksrv.Base.{
  ℕ, suc, ◌≡◌, ◌∙◌, ◌||◌, Bool, false, refl, ap, List, [], ◌∷◌, ◌++◌, length, take, ◌==◌, ltb, ◌&&◌,
  if◌then◌else◌, arith, Bool-cases, inl, inr,
}
use go_ublksrv.Word.{minus}
use go_ublksrv.Queue.Types.{IoDesc}
use go_ublksrv.Queue.Request.{longhorn_cmd_type_read}
use go_ublksrv.Target.Types.{Request, bytes, capacity, minus_one, type_read, type_write, type_unmap}
use go_ublksrv.Target.Handler.{
  IoHandler, handled, complete, copy, handle_read, handle_write, handle_unmap, handle_request,
}
use go_ublksrv.Target.Bridge.{Job, answers, answer_size, finish_request, answer_request, eio}

pub length-copy : (dst src : List ℕ) → length (copy dst src) ≡ length dst
length-copy [] src = refl
length-copy (d ∷ dst) [] = refl
length-copy (d ∷ dst) (x ∷ src) = ap suc (length-copy dst src)

-- A message that is not waited for, with room for a read of its size.
pub record IsIdle (msg : Request) : Type 0 where
  pub empty : msg.complete ≡ 0
  pub room : ((msg.type == type_read) && ltb (capacity msg.rdata) msg.size) ≡ false

module _ {S : Type 0} ⦃h : IoHandler S⦄ where
  -- Whether the handler of a request answers with an error.
  abbrev pub fails : Request → S → Bool
  fails msg s =
      if msg.type == type_read
      then (h.read_at (take msg.size msg.rdata.array) msg.offset s).0
      else if msg.type == type_write
      then (h.write_at (bytes msg.wdata) msg.offset s).0
      else if msg.type == type_unmap
      then (h.unmap_at msg.size msg.offset s).0
      else false

  -- The message that the handler is done with, and what is stored then.
  abbrev pub served : Request → S → Request
  served msg s = record msg {
    complete = 1;
    result = if fails msg s then minus_one else msg.result;
    rdata =
        if msg.type == type_read
        then record {
          array = copy msg.rdata.array (h.read_at (take msg.size msg.rdata.array) msg.offset s).1;
          len = msg.size;
        }
        else msg.rdata;
  }

  abbrev pub stored : Request → S → S
  stored msg s =
      if msg.type == type_read
      then (h.read_at (take msg.size msg.rdata.array) msg.offset s).2
      else if msg.type == type_write
      then (h.write_at (bytes msg.wdata) msg.offset s).1
      else if msg.type == type_unmap
      then (h.unmap_at msg.size msg.offset s).1
      else s

  handle_request-served :
      (msg : Request) (s : S)
      → IsIdle msg
      → handle_request msg s ≡ handled (served msg s) (stored msg s)
  unfolding handle_request handle_read handle_write handle_unmap complete
  handle_request-served msg s idle = elim (Bool-cases (msg.type == type_read)) [
    | inl reads ↦ ground (arith, idle.room, idle.empty)
    | inr other ↦ elim (Bool-cases (msg.type == type_write)) [
      | inl writes ↦ ground (arith, idle.empty)
      | inr neither ↦ ground (arith, idle.empty)
    ]
  ]

  served-capacity : (msg : Request) (s : S) → capacity (served msg s).rdata ≡ capacity msg.rdata
  served-capacity msg s = elim (Bool-cases (msg.type == type_read)) [
    | inl reads ↦
        rw reads
          (length-copy msg.rdata.array (h.read_at (take msg.size msg.rdata.array) msg.offset s).1)
    | inr other ↦ rw other refl
  ]

  answer_request-runs :
      (job : Job) (iod : IoDesc) (s : S) (msg : Request) (s' : S)
      → handle_request job.msg s ≡ handled msg s'
      → answer_request job iod s ≡ finish_request job iod msg s'
  unfolding answer_request
  answer_request-runs job iod s msg s' run = ground arith

  -- A goroutine always answers. From a message that nobody waits for, with room for what it reads,
  -- it completes the tag of its request with the size of the request in bytes, 0 for an unmap; before
  -- that with -EIO where the handler fails now, or the message still has the failure of an earlier
  -- request. It gives the message back with an empty channel and the same room, marked as failed where
  -- it was before or the handler fails now. The bytes at `iov_base` are overwritten for a read only.
  pub answer_request-answers :
      (job : Job) (iod : IoDesc) (s : S)
      → IsIdle job.msg
      → (msg : Request) × (answer_request job iod s
          ≡ answers
              ((if fails job.msg s || (job.msg.result == minus_one)
                  then (job.tag, minus eio) ∷ []
                  else [])
                ++ ((job.tag, answer_size job.op_type iod) ∷ []))
              (if job.op_type == longhorn_cmd_type_read
                then copy job.buffer (bytes (served job.msg s).rdata)
                else job.buffer)
              msg
              (stored job.msg s))
        × (msg.complete ≡ 0)
        × (capacity msg.rdata ≡ capacity job.msg.rdata)
        × ((msg.result == minus_one) ≡ (fails job.msg s || (job.msg.result == minus_one)))
  unfolding finish_request
  answer_request-answers job iod s idle = (
    record (served job.msg s) { complete = 0 },
    answer_request-runs job iod s (served job.msg s) (stored job.msg s)
          (handle_request-served job.msg s idle)
        ∙ ground arith,
    refl,
    served-capacity job.msg s,
    ground arith,
  )

  -- A request that succeeds, with a message that has no failure.
  pub answer_request-once :
      (job : Job) (iod : IoDesc) (s : S) {size : ℕ} {buffer : List ℕ} {s' : S}
      → IsIdle job.msg
      → (fails job.msg s || (job.msg.result == minus_one)) ≡ false
      → answer_size job.op_type iod ≡ size
      → (if job.op_type == longhorn_cmd_type_read
          then copy job.buffer (bytes (served job.msg s).rdata)
          else job.buffer)
        ≡ buffer
      → stored job.msg s ≡ s'
      → (msg : Request) × (answer_request job iod s ≡ answers ((job.tag, size) ∷ []) buffer msg s')
        × (msg.complete ≡ 0)
        × (capacity msg.rdata ≡ capacity job.msg.rdata)
        × ((msg.result == minus_one) ≡ false)
  answer_request-once job iod s {size = size} idle fine sized filled left =
      let (msg, run, empty, room, still) = answer_request-answers job iod s idle in
      let once : (if fails job.msg s || (job.msg.result == minus_one)
              then (job.tag, minus eio) ∷ []
              else [])
            ++ ((job.tag, answer_size job.op_type iod) ∷ [])
          ≡ (job.tag, answer_size job.op_type iod) ∷ [] =
        rw fine refl in
      let one : (if fails job.msg s || (job.msg.result == minus_one)
              then (job.tag, minus eio) ∷ []
              else [])
            ++ ((job.tag, answer_size job.op_type iod) ∷ [])
          ≡ (job.tag, size) ∷ [] =
        once ∙ ap (λ n. (job.tag, n) ∷ []) sized in
      (msg, run ∙ (λ i. answers (one i) (filled i) msg (left i)), empty, room, still ∙ fine)

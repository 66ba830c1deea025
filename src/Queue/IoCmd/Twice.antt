-- ===== src/Queue/IoCmd/Twice.antt =====
-- Two completions of one request.
use go_ublksrv.Base.{
  ℕ, ◌+◌, ◌-◌, ◌^◌, ◌<◌, ◌≡◌, ◌∙◌, false, refl, Option, some, [], ◌∷◌, ◌++◌, get_elem?, arith, ap,
  map, get_elem?-set_self, get_elem?-lt,
}
use mathlib.Core.List.{map-append, append_assoc}
use go_ublksrv.Word.{u32}
use go_ublksrv.Bits.{has}
use go_ublksrv.Ioctl.{Ioctl, IsIoctl}
use go_ublksrv.Uring.{Uring}
use go_ublksrv.Queue.Flags.{ublksrv_need_get_data}
use go_ublksrv.Queue.Types.{Io, IoSqe, Queue, ok}
use go_ublksrv.Queue.IoCmd.{ublksrv_complete_io}
use go_ublksrv.Queue.IoCmd.Commit.{complete_io-Commits}

-- Tag and result of an entry.
abbrev pub committed : IoSqe → ℕ × Option ℕ
committed s = (s.cmd.tag, s.cmd.result)

no_data : has 0 ublksrv_need_get_data ≡ false
unfolding has
no_data = refl

module _ {R : Type 0} ⦃m : Ioctl⦄ ⦃u : Uring R⦄ (laws : IsIoctl m) where
  -- Nothing keeps the target from completing a request twice: where the first completion is sent and
  -- the submission queue has one entry more, the second returns 1 as well, commits the slot again with
  -- its own result, and counts the io in flight down a second time.
  pub complete_io-twice :
      (tag res res' : ℕ) (q : Queue R) {io : Io} {ring ring' : R}
      → tag < 2 ^ 16
      → q.lock ≡ false
      → get_elem? q.ios tag ≡ some io
      → has io.flags ublksrv_need_get_data ≡ false
      → u.get_sqe q.ring ≡ some ring
      → u.get_sqe ring ≡ some ring'
      → (q1 : Queue R) × (q2 : Queue R) × (ublksrv_complete_io tag res q ≡ ok 1 q1)
        × (ublksrv_complete_io tag res' q1 ≡ ok 1 q2)
        × (map committed q2.sqes
            ≡ map committed q.sqes ++ ((tag, some (u32 res)) ∷ (tag, some (u32 res')) ∷ []))
        × (q2.tgt_io_inflight ≡ u32 (q.tgt_io_inflight + (2 ^ 32 - 2)))
  complete_io-twice tag res res' q {io} {ring} {ring'} fits unlocked slot plain got got' =
      let (q1, run, d) = complete_io-Commits laws tag res q fits unlocked slot plain got in
      let again : get_elem? q1.ios tag ≡ some (record io { flags = 0; result = u32 res }) =
        rw d.slots (get_elem?-set_self q.ios tag _ (get_elem?-lt q.ios tag slot)) in
      let (q2, run', d') =
        complete_io-Commits laws tag res' q1 {ring = ring'} fits d.unlocked again no_data
          (ap u.get_sqe d.ring_taken ∙ got') in
      (
        q1,
        q2,
        run,
        run',
        rw (d'.sqes, d.sqes)
            (simp (map-append, append_assoc, d.cmd_tag, d.result, d'.cmd_tag, d'.result)),
        omega (arith, d.counted, d'.counted),
      )

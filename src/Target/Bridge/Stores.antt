-- ===== src/Target/Bridge/Stores.antt =====
-- What is written through a device is read back.
use mathlib.Core.Path.{subst}
use go_ublksrv.Base.{
  ℕ, zero, suc, ◌*◌, ◌^◌, ◌≤◌, ◌≡◌, ◌∙◌, false, refl, sym, ap, List, [], ◌∷◌, length, take, ◌==◌,
  arith,
}
use go_ublksrv.Word.{u32, u64}
use go_ublksrv.Host.{Host, cpu_to_le64}
use go_ublksrv.Queue.Types.{IoDesc, IoData}
use go_ublksrv.Queue.Request.{
  call_for, longhorn_build_req, req_to_longhorn_cmd_type, get_nr_sectors, longhorn_cmd_type_read,
  longhorn_cmd_type_write,
}
use go_ublksrv.Target.Types.{Request, bytes, capacity, minus_one}
use go_ublksrv.Target.Handler.{IoHandler, copy}
use go_ublksrv.Target.Bridge.{job_of, fill_request, answers, answer_request}
use go_ublksrv.Target.Bridge.Answers.{IsIdle, fails, served, stored, answer_request-once}

-- A host whose words are little-endian: the conversions do nothing.
pub record IsLittle (h : Host) : Type 0 where
  pub same32 : (n : ℕ) → h.htole32 n ≡ n
  pub same64 : (n : ℕ) → h.htole64 n ≡ n

-- A handler that stores: what a write took is what a read of the same length at the same offset gives
-- next.
pub record IsStore {S : Type 0} (h : IoHandler S) : Type 0 where
  pub no_error :
      (w p : List ℕ) (off : ℕ) (s : S)
      → (h.write_at w off s).0 ≡ false
      → length p ≡ length w
      → (h.read_at p off (h.write_at w off s).1).0 ≡ false
  pub reads_back :
      (w p : List ℕ) (off : ℕ) (s : S)
      → (h.write_at w off s).0 ≡ false
      → length p ≡ length w
      → (h.read_at p off (h.write_at w off s).1).1 ≡ w

length-take : (n : ℕ) (xs : List ℕ) → n ≤ length xs → length (take n xs) ≡ n
length-take zero xs h = refl
length-take (suc n) [] h = absurd (omega arith)
length-take (suc n) (x ∷ xs) h = ap suc (length-take n xs (omega arith))

take-length : (xs : List ℕ) → take (length xs) xs ≡ xs
take-length [] = refl
take-length (x ∷ xs) = ap (◌∷◌ x) (take-length xs)

take-copy : (dst src : List ℕ) → length src ≤ length dst → take (length src) (copy dst src) ≡ src
take-copy dst [] h = ground arith
take-copy [] (x ∷ src) h = absurd (omega arith)
take-copy (d ∷ dst) (x ∷ src) h = ap (◌∷◌ x) (take-copy dst src (omega arith))

copy-same : (dst src : List ℕ) → length src ≡ length dst → copy dst src ≡ src
copy-same [] [] h = refl
copy-same [] (x ∷ src) h = absurd (omega arith)
copy-same (d ∷ dst) [] h = absurd (omega arith)
copy-same (d ∷ dst) (x ∷ src) h = ap (◌∷◌ x) (copy-same dst src (omega arith))

module _ {S : Type 0} ⦃h : IoHandler S⦄ ⦃host : Host⦄ (little : IsLittle host)
    (store : IsStore h) where
  -- The handler's part of a read behind a write.
  filled-read :
      (array w : List ℕ) (n off : ℕ) (s : S)
      → (h.write_at w off s).0 ≡ false
      → length w ≡ n
      → n ≤ length array
      → ((h.read_at (take n array) off (h.write_at w off s).1).0 ≡ false)
        × (take n (copy array (h.read_at (take n array) off (h.write_at w off s).1).1) ≡ w)
  filled-read array w n off s ok size room =
      let same : length (take n array) ≡ length w = length-take n array room ∙ sym size in
      let back = store.reads_back w (take n array) off s ok same in
      (
        store.no_error w (take n array) off s ok same,
        rw back (
            ap (λ (k : ℕ). take k (copy array w)) (sym size)
            ∙ take-copy array w (omega (arith, size, room))),
      )

  -- The write's goroutine.
  write-answers :
      (iod : IoDesc) (own : IoData) (w : List ℕ) (msg : Request) (s : S)
      → req_to_longhorn_cmd_type iod ≡ longhorn_cmd_type_write
      → length w ≡ u32 (iod.nr_sectors * 2 ^ 9)
      → (msg.complete ≡ 0) × ((msg.result == minus_one) ≡ false)
      → (h.write_at w (u64 (iod.start_sector * 2 ^ 9)) s).0 ≡ false
      → (done_ : Request) × (answer_request (job_of (call_for iod own) w msg) iod s
          ≡ answers
              ((own.tag, length w) ∷ [])
              w
              done_
              (h.write_at w (u64 (iod.start_sector * 2 ^ 9)) s).1)
  unfolding fill_request longhorn_build_req cpu_to_le64 get_nr_sectors
  write-answers iod own w msg s writes size fresh ok =
      let job = job_of (call_for iod own) w msg in
      let idle : IsIdle job.msg = record { empty = fresh.0; room = ground (arith, writes) } in
      let off = u64 (iod.start_sector * 2 ^ 9) in
      let moved : h.write_at (take (length w) w) (host.htole64 off) s ≡ h.write_at w off s =
        rw (take-length w, little.same64 off) refl in
      let fine : fails job.msg s ≡ false = ground (arith, writes, moved, ok) in
      let left : stored job.msg s ≡ (h.write_at w off s).1 = ground (arith, writes, moved) in
      let (done_, run, _, _, _) =
        answer_request-once job iod s idle (ground (arith, fine, fresh.1))
          (ground (arith, writes, size)) (ground (arith, writes)) left in
      (done_, run)

  -- The read's goroutine, behind a write.
  read-answers :
      (iod : IoDesc) (own : IoData) (w r : List ℕ) (msg : Request) (s : S)
      → req_to_longhorn_cmd_type iod ≡ longhorn_cmd_type_read
      → length r ≡ u32 (iod.nr_sectors * 2 ^ 9)
      → length r ≡ length w
      → length r ≤ capacity msg.rdata
      → (msg.complete ≡ 0) × ((msg.result == minus_one) ≡ false)
      → (h.write_at w (u64 (iod.start_sector * 2 ^ 9)) s).0 ≡ false
      → (done_ : Request) × (s' : S) × (answer_request
            (job_of (call_for iod own) r msg)
            iod
            (h.write_at w (u64 (iod.start_sector * 2 ^ 9)) s).1
          ≡ answers ((own.tag, length r) ∷ []) w done_ s')
  unfolding fill_request longhorn_build_req cpu_to_le64 get_nr_sectors
  read-answers iod own w r msg s reads size same room fresh ok =
      let job = job_of (call_for iod own) r msg in
      let off = u64 (iod.start_sector * 2 ^ 9) in
      let n = u32 (iod.nr_sectors * 2 ^ 9) in
      let s1 = (h.write_at w off s).1 in
      let array = msg.rdata.array in
      let own_size = little.same32 n in
      let place = little.same64 off in
      let idle : IsIdle job.msg = record {
        empty = fresh.0;
        room = ground (arith, reads, own_size, size, room);
      } in
      let (no_fail, filled) =
        filled-read array w n off s ok (sym same ∙ size) (omega (arith, size, room)) in
      let moved : h.read_at (take (host.htole32 n) array) (host.htole64 off) s1
          ≡ h.read_at (take n array) off s1 =
        rw (own_size, place) refl in
      let fine : fails job.msg s1 ≡ false = ground (arith, reads, moved, no_fail) in
      let shown : bytes (served job.msg s1).rdata
          ≡ take (host.htole32 n)
              (copy array (h.read_at (take (host.htole32 n) array) (host.htole64 off) s1).1) =
        ground (arith, reads) in
      let full : copy r (bytes (served job.msg s1).rdata) ≡ w =
        ap (copy r) (shown ∙ rw (moved, own_size) filled) ∙ copy-same r w (sym same) in
      let (done_, run, _, _, _) =
        answer_request-once job iod s1 idle (ground (arith, fine, fresh.1))
          (ground (arith, reads, size)) (ground (arith, reads, full)) refl in
      (done_, stored job.msg s1, run)

  -- What is written through a device is read back. On a little-endian host, where the driver asks to
  -- write some sectors and then to read as many from the same sector, with two messages that are not
  -- waited for and have no failure, the second with room: if the handler stores, and takes the write,
  -- both requests are completed once, with their size, and the bytes at `iov_base` of the read become
  -- those of the write.
  pub write-read :
      (wiod riod : IoDesc) (wown rown : IoData) (w r : List ℕ) (m1 m2 : Request) (s : S)
      → req_to_longhorn_cmd_type wiod ≡ longhorn_cmd_type_write
      → req_to_longhorn_cmd_type riod ≡ longhorn_cmd_type_read
      → riod.start_sector ≡ wiod.start_sector
      → length w ≡ u32 (wiod.nr_sectors * 2 ^ 9)
      → length r ≡ u32 (riod.nr_sectors * 2 ^ 9)
      → length r ≡ length w
      → length r ≤ capacity m2.rdata
      → (m1.complete ≡ 0) × ((m1.result == minus_one) ≡ false)
      → (m2.complete ≡ 0) × ((m2.result == minus_one) ≡ false)
      → (h.write_at w (u64 (wiod.start_sector * 2 ^ 9)) s).0 ≡ false
      → (s1 : S) × (d1 : Request) × (d2 : Request) × (s2 : S) × (answer_request
            (job_of (call_for wiod wown) w m1)
            wiod
            s
          ≡ answers ((wown.tag, length w) ∷ []) w d1 s1)
        × (answer_request (job_of (call_for riod rown) r m2) riod s1
            ≡ answers ((rown.tag, length r) ∷ []) w d2 s2)
  write-read wiod riod wown rown w r m1 m2 s writes reads place wsize rsize same room fresh1 fresh2
        ok =
      let (d1, run1) = write-answers wiod wown w m1 s writes wsize fresh1 ok in
      let (d2, s2, run2) =
        read-answers riod rown w r m2 s reads rsize same room fresh2
          (subst (λ n. (h.write_at w (u64 (n * 2 ^ 9)) s).0 ≡ false) (sym place) ok) in
      let moved : (h.write_at w (u64 (riod.start_sector * 2 ^ 9)) s).1
          ≡ (h.write_at w (u64 (wiod.start_sector * 2 ^ 9)) s).1 =
        ap (λ (n : ℕ). (h.write_at w (u64 (n * 2 ^ 9)) s).1) place in
      (
        (h.write_at w (u64 (wiod.start_sector * 2 ^ 9)) s).1,
        d1,
        d2,
        s2,
        run1,
        subst
            (λ s1.
              answer_request (job_of (call_for riod rown) r m2) riod s1
              ≡ answers ((rown.tag, length r) ∷ []) w d2 s2)
            moved run2,
      )

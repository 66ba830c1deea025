-- ===== src/Tests/Targets.antt =====
-- A disk, requests for it, and the theorems on the target at them.
use go_ublksrv.Base.{
  ℕ, zero, suc, ◌*◌, ◌%◌, ◌<◌, ◌≡◌, ◌∙◌, ◌||◌, ◌++◌, false, refl, sym, ap, some, List, [], ◌∷◌,
  length, ◌==◌, if◌then◌else◌, arith,
}
use go_ublksrv.Word.{minus}
use go_ublksrv.Queue.Types.{IoDesc, IoData}
use go_ublksrv.Queue.Request.{
  call_for, longhorn_build_req, ublksrv_get_op, req_to_longhorn_cmd_type, longhorn_cmd_type_read,
}
use go_ublksrv.Target.Types.{Request, bytes, capacity, minus_one, make_bytes}
use go_ublksrv.Target.Handler.{IoHandler, copy}
use go_ublksrv.Target.Bridge.{Job, job_of, fill_request, answers, answer_size, answer_request, eio}
use go_ublksrv.Target.Bridge.Answers.{IsIdle, fails, served, stored, answer_request-answers}
use go_ublksrv.Target.Bridge.Stale.{Incoming, serve_all, twice, serve_all-twice}
use go_ublksrv.Target.Bridge.Stores.{IsLittle, IsStore, write-read}
use go_ublksrv.Target.Session.Begins.{length-make_bytes}
use go_ublksrv.Tests.Machine.{linux, little_endian}
use go_ublksrv.Tests.Drivers.{storing}

-- A disk: the byte at each place.
abbrev pub Disk : Type 0
Disk = ℕ → ℕ

abbrev put : List ℕ → (off : ℕ) → Disk → Disk
put [] off disk = disk
put (x ∷ xs) off disk = λ k. if k == off then x else put xs (suc off) disk k

abbrev fetch : List ℕ → (off : ℕ) → Disk → List ℕ
fetch [] off disk = []
fetch (x ∷ xs) off disk = disk off ∷ fetch xs (suc off) disk

instance abbrev pub disk_handler : IoHandler Disk
disk_handler = record {
  read_at = λ p off disk. (false, fetch p off disk, disk);
  write_at = λ p off disk. (false, put p off disk);
  unmap_at = λ size off disk. (false, disk);
}

abbrev at_place : (place x : ℕ) → Disk → Disk
at_place place x disk = λ k. if k == place then x else disk k

fetch-above :
    (p : List ℕ) (off place x : ℕ) (disk : Disk)
    → place < off
    → fetch p off (at_place place x disk) ≡ fetch p off disk
fetch-above [] off place x disk h = refl
fetch-above (y ∷ p) off place x disk h =
    let other : at_place place x disk off ≡ disk off = ground (arith, h) in
    λ i. other i ∷ fetch-above p (suc off) place x disk (omega (arith, h)) i

fetch-put :
    (w p : List ℕ) (off : ℕ) (disk : Disk) → length p ≡ length w → fetch p off (put w off disk) ≡ w
fetch-put [] [] off disk h = refl
fetch-put [] (y ∷ p) off disk h = absurd (omega arith)
fetch-put (x ∷ w) [] off disk h = absurd (omega arith)
fetch-put (x ∷ w) (y ∷ p) off disk h =
    let own : put (x ∷ w) off disk off ≡ x = ground arith in
    let more : fetch p (suc off) (put (x ∷ w) off disk) ≡ w =
      fetch-above p (suc off) off x (put w (suc off) disk) (omega arith)
      ∙ fetch-put w p (suc off) disk (omega (arith, h)) in
    λ i. own i ∷ more i

disk-IsStore : IsStore disk_handler
disk-IsStore = record {
  no_error = λ w p off s ok same. refl;
  reads_back = λ w p off s ok same. fetch-put w p off s same;
}

little_endian-IsLittle : IsLittle little_endian
little_endian-IsLittle = record { same32 = λ n. refl; same64 = λ n. refl }

-- One sector at sector 3.
abbrev pub desc_of : (op : ℕ) → IoDesc
desc_of op = record { op_flags = op; nr_sectors = 1; start_sector = 3; addr = 0x7000 }

abbrev data_of : (tag : ℕ) → IoData
data_of tag = record {
  tag = tag;
  iod = some (tag * 24);
  private_data = record { size = 0; seq = 0 };
}

-- A message with room for one sector.
abbrev sector_request : Request
sector_request = record {
  complete = 0;
  magic_version = 0x1b01;
  seq = 0;
  type = 100;
  offset = 0;
  size = 0;
  rdata = record { array = make_bytes 512; len = 512 };
  wdata = record { array = []; len = 0 };
  result = 0;
}

-- Bytes to write.
abbrev ramp : ℕ → List ℕ
ramp zero = []
ramp (suc n) = n % 256 ∷ ramp n

length-ramp : (n : ℕ) → length (ramp n) ≡ n
length-ramp zero = refl
length-ramp (suc n) = ap suc (length-ramp n)

abbrev write_job : Job
write_job = job_of (call_for (desc_of 1) (data_of 4)) (ramp 512) sector_request

write_job-IsIdle : IsIdle write_job.msg
unfolding fill_request req_to_longhorn_cmd_type ublksrv_get_op
write_job-IsIdle = record { empty = refl; room = refl }

abbrev pub blank : Disk
blank = λ k. 0

answer_request-answers_example :
    (msg : Request) × (answer_request write_job (desc_of 1) blank
      ≡ answers
          ((if fails write_job.msg blank || (write_job.msg.result == minus_one)
              then (write_job.tag, minus eio) ∷ []
              else [])
            ++ ((write_job.tag, answer_size write_job.op_type (desc_of 1)) ∷ []))
          (if write_job.op_type == longhorn_cmd_type_read
            then copy write_job.buffer (bytes (served write_job.msg blank).rdata)
            else write_job.buffer)
          msg
          (stored write_job.msg blank))
    × (msg.complete ≡ 0)
    × (capacity msg.rdata ≡ capacity write_job.msg.rdata)
    × ((msg.result == minus_one)
        ≡ (fails write_job.msg blank || (write_job.msg.result == minus_one)))
answer_request-answers_example = answer_request-answers write_job (desc_of 1) blank write_job-IsIdle

-- Two writes.
abbrev two_writes : List Incoming
two_writes =
    record { call = call_for (desc_of 1) (data_of 4); buffer = ramp 512; iod = desc_of 1 }
    ∷ record { call = call_for (desc_of 1) (data_of 5); buffer = ramp 512; iod = desc_of 1 }
    ∷ []

abbrev failed_request : Request
failed_request = record sector_request { result = minus_one }

serve_all-twice_example : serve_all two_writes failed_request blank ≡ some (twice two_writes)
unfolding longhorn_build_req
serve_all-twice_example =
    serve_all-twice two_writes failed_request blank refl refl
      (omega (arith, length-make_bytes 512), (omega (arith, length-make_bytes 512), tt))

write-read_example :
    (s1 : Disk) × (d1 : Request) × (d2 : Request) × (s2 : Disk) × (answer_request
        (job_of (call_for (desc_of 1) (data_of 4)) (ramp 512) sector_request)
        (desc_of 1)
        blank
      ≡ answers ((4, length (ramp 512)) ∷ []) (ramp 512) d1 s1)
    × (answer_request
          (job_of (call_for (desc_of 0) (data_of 2)) (make_bytes 512) sector_request)
          (desc_of 0)
          s1
        ≡ answers ((2, length (make_bytes 512)) ∷ []) (ramp 512) d2 s2)
unfolding req_to_longhorn_cmd_type ublksrv_get_op
write-read_example =
    write-read little_endian-IsLittle disk-IsStore (desc_of 1) (desc_of 0) (data_of 4) (data_of 2)
      (ramp 512) (make_bytes 512) sector_request sector_request blank refl refl refl
      (length-ramp 512) (length-make_bytes 512) (length-make_bytes 512 ∙ sym (length-ramp 512))
      (omega (arith, length-make_bytes 512)) (refl, refl) (refl, refl) refl

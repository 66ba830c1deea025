-- ===== src/Queue/Init/Fetch.antt =====
-- The first commands: one fetch for each slot of the driver.
use go_ublksrv.Base.{
  ℕ, zero, suc, ◌+◌, ◌-◌, ◌^◌, ◌≤◌, ◌<◌, ◌≡◌, ◌≢◌, ◌++◌, refl, sym, ◌∙◌, arith, false, some, List,
  [], ◌∷◌, length, map, get_elem?, set, get_elem?-set_ne, length-set,
}
use mathlib.Core.List.{map-append, append_assoc, append-nil}
use go_ublksrv.Bits.{has}
use go_ublksrv.Ioctl.{Ioctl, IsIoctl}
use go_ublksrv.Uring.{Uring, HasRoom}
use go_ublksrv.UserData.{user_data_to_op}
use go_ublksrv.UserData.Laws.{packed, build-packed, read-build}
use go_ublksrv.Queue.Flags.{ublk_io_fetch_req}
use go_ublksrv.Queue.Types.{Io, IoSqe, Queue, ok}
use go_ublksrv.Queue.IoCmd.{fill_sqe, ublksrv_queue_io_cmd}
use go_ublksrv.Queue.IoCmd.Cases.{retired}
use go_ublksrv.Queue.IoCmd.Commit.{nr-encode}
use go_ublksrv.Queue.Invariant.Defs.{IsQueue, Evolves}
use go_ublksrv.Queue.Invariant.Slots.{slot_at, Evolves-refl, Evolves-trans}
use go_ublksrv.Queue.Invariant.Commands.{retired-After}
use go_ublksrv.Queue.Init.{submit_fetch}

-- A slot that has not been used.
abbrev pub FreshAt : List Io → ℕ → Type 0
FreshAt ios i = (io : Io) × (get_elem? ios i ≡ some io) × (io.flags ≡ 5)

-- The slots from `i` on, `left` of them.
abbrev pub Fresh : (left i : ℕ) → List Io → Type 0
Fresh zero i ios = Unit {0}
Fresh (suc left) i ios = FreshAt ios i × Fresh left (suc i) ios

Fresh-set :
    (left i j : ℕ) (ios : List Io) (v : Io) → j < i → Fresh left i ios → Fresh left i (set ios j v)
Fresh-set zero i j ios v h f = tt
Fresh-set (suc left) i j ios v h ((io, slot, e), f) =
    let apart : j ≢ i = omega arith in
    ((io, get_elem?-set_ne ios v apart ∙ slot, e), Fresh-set left (suc i) j ios v (omega arith) f)

-- Command and tag of an entry, as the driver reads them.
abbrev pub sent : IoSqe → ℕ × ℕ
sent s = (user_data_to_op s.user_data, s.cmd.tag)

abbrev pub fetches : (left i : ℕ) → List (ℕ × ℕ)
fetches zero i = []
fetches (suc left) i = (ublk_io_fetch_req, i) ∷ fetches left (suc i)

pub record CanFetch {R : Type 0} ⦃u : Uring R⦄ (full : HasRoom u) (left i : ℕ) (q : Queue R)
    : Type 0 where
  pub unlocked : q.lock ≡ false
  pub room : left ≤ full.room q.ring
  pub fresh : Fresh left i q.ios
  pub valid : IsQueue q
  pub fits : i + left ≤ length q.ios

module _ {R : Type 0} ⦃m : Ioctl⦄ ⦃u : Uring R⦄ (laws : IsIoctl m) where
  fetch_sqe : ℕ → Io → Queue R → IoSqe
  fetch_sqe i io q = fill_sqe q io i ublk_io_fetch_req (packed i ublk_io_fetch_req 0 0)

  fetch_runs :
      (i : ℕ) (q : Queue R) {io : Io} {ring : R}
      → i < 2 ^ 16
      → q.lock ≡ false
      → get_elem? q.ios i ≡ some io
      → io.flags ≡ 5
      → u.get_sqe q.ring ≡ some ring
      → ublksrv_queue_io_cmd i q ≡ ok 1 (retired i io (fetch_sqe i io q) ring q)
  unfolding ublksrv_queue_io_cmd has fetch_sqe
  fetch_runs i q {io} fits unlocked slot e got = ground (
    arith,
    build-packed i ublk_io_fetch_req 0 0 fits,
    nr-encode laws ublk_io_fetch_req q (omega arith),
  )

  sent-fetch :
      (i : ℕ) (q : Queue R) (io : Io)
      → i < 2 ^ 16
      → sent (fetch_sqe i io q) ≡ (ublk_io_fetch_req, i)
  unfolding fetch_sqe fill_sqe
  sent-fetch i q io fits =
      let back =
        read-build i ublk_io_fetch_req 0 0
          (build-packed i ublk_io_fetch_req 0 0 fits (omega arith) (omega arith)) in
      ground arith

sent-append :
    (xs : List IoSqe) (x : IoSqe) {y : ℕ × ℕ} (zs : List (ℕ × ℕ))
    → sent x ≡ y
    → map sent (xs ++ (x ∷ [])) ++ zs ≡ map sent xs ++ (y ∷ zs)
sent-append xs x zs e = simp (map-append, append_assoc, e)

fetch_room : (room left : ℕ) → suc left ≤ room → room ≡ suc (room - 1)
fetch_room room left h = omega arith

fetch_fits : (i left n : ℕ) → i + suc left ≤ n → n ≤ 2 ^ 16 → i < 2 ^ 16
fetch_fits i left n h k = omega arith

module _ {R : Type 0} ⦃m : Ioctl⦄ ⦃u : Uring R⦄ (laws : IsIoctl m) (full : HasRoom u) where
  one_more :
      (left i : ℕ) (q : Queue R) {q1 q' : Queue R}
      → ublksrv_queue_io_cmd i q ≡ ok 1 q1
      → submit_fetch left (suc i) q1 ≡ ok (suc i + left) q'
      → submit_fetch (suc left) i q ≡ ok (i + suc left) q'
  unfolding submit_fetch
  one_more left i q p r = rw p (ground arith)

  -- Each slot is fetched, in order.
  pub submit_fetch-all :
      (left i : ℕ) (q : Queue R)
      → CanFetch full left i q
      → (q' : Queue R) × (submit_fetch left i q ≡ ok (i + left) q')
        × IsQueue q'
        × Evolves q q'
        × (q'.lock ≡ false)
        × (map sent q'.sqes ≡ map sent q.sqes ++ fetches left i)
  unfolding submit_fetch
  submit_fetch-all zero i q can =
      (q, ground arith, can.valid, Evolves-refl q, can.unlocked, sym (append-nil (map sent q.sqes)))
  submit_fetch-all (suc left) i q can =
      let ((io, slot, e), rest) = can.fresh in
      let (ring, got, less) =
        full.take q.ring (full.room q.ring - 1) (fetch_room (full.room q.ring) left can.room) in
      let small = fetch_fits i left (length q.ios) can.fits can.valid.tags_fit in
      let s = slot_at q.q_depth q.ios i can.valid.slots slot in
      let sqe = fetch_sqe laws i io q in
      let q1 = retired i io sqe ring q in
      let a = retired-After i io sqe ring q can.valid s in
      let (q', run, v, ev, open_, log) = submit_fetch-all left (suc i) q1 (record {
        unlocked = refl;
        room = omega (arith, can.room);
        fresh = Fresh-set left (suc i) i q.ios _ (omega arith) rest;
        valid = a.0;
        fits = omega (arith, can.fits, length-set q.ios i (record io { flags = 0 }));
      }) in
      (
        q',
        one_more left i q (fetch_runs laws i q small can.unlocked slot e got) run,
        v,
        Evolves-trans a.1 ev,
        open_,
        log ∙ sent-append q.sqes sqe (fetches left (suc i)) (sent-fetch laws i q io small),
      )

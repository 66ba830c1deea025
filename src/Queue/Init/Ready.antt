-- ===== src/Queue/Init/Ready.antt =====
-- A queue whose initialisation meets no failure of the system is ready.
use mathlib.Core.Path.{subst}
use go_ublksrv.Base.{
  ℕ, zero, suc, ◌+◌, ◌-◌, ◌^◌, ◌≤◌, ◌<◌, ◌≡◌, ◌++◌, refl, sym, ap, ◌∙◌, arith, false, Option, some,
  List, [], ◌∷◌, length, map, ltb, if◌then◌else◌, get_elem?, Option-cases, inl, inr,
}
use go_ublksrv.Bits.{has}
use go_ublksrv.Word.{is_neg}
use go_ublksrv.Ioctl.{Ioctl, IsIoctl}
use go_ublksrv.Uring.{Uring, HasRoom}
use go_ublksrv.Dev.{Dev}
use go_ublksrv.Dev.Depths.{ublksrv_calculate_depths, calculate_depths-max}
use go_ublksrv.Queue.Types.{IoDesc, Io, Queue, Run, ok, and_then}
use go_ublksrv.Queue.Invariant.Defs.{Slots, SlotOk, IsQueue, Evolves}
use go_ublksrv.Queue.Invariant.Slots.{get_elem?-some}
use go_ublksrv.Queue.Init.{
  Answers, allocated, io_data_size, init_io, init_ios, filled_queue, finish_init, submit_fetch,
  ublksrv_queue_init,
}
use go_ublksrv.Queue.Init.Fetch.{Fresh, CanFetch, sent, fetches, submit_fetch-all}

abbrev AllFresh : List Io → Type 0
AllFresh [] = Unit {0}
AllFresh (io ∷ ios) = (io.flags ≡ 5) × AllFresh ios

AllFresh-get :
    (ios : List Io) (i : ℕ) {io : Io} → AllFresh ios → get_elem? ios i ≡ some io → io.flags ≡ 5
AllFresh-get [] i f e = absurd (ground arith)
AllFresh-get (x ∷ ios) zero f e = ground arith
AllFresh-get (x ∷ ios) (suc i) f e = AllFresh-get ios i f.1 e

AllFresh-Fresh :
    (left i : ℕ) (ios : List Io) → AllFresh ios → i + left ≤ length ios → Fresh left i ios
AllFresh-Fresh zero i ios f h = tt
AllFresh-Fresh (suc left) i ios f h =
    let (io, slot) = get_elem?-some ios i (omega arith) in
    ((io, slot, AllFresh-get ios i f slot), AllFresh-Fresh left (suc i) ios f (omega arith))

-- The slots that the loop makes.
record Made (depth i left : ℕ) (ios : List Io) : Type 0 where
  slots : Slots depth i ios
  count : length ios ≡ left
  fresh : AllFresh ios

init_io-SlotOk :
    (left_over depth data_size i addr : ℕ)
    → SlotOk depth i (init_io left_over depth data_size i addr)
unfolding init_io has
init_io-SlotOk left_over depth data_size i addr = ground arith

init_io-flags :
    (left_over depth data_size i addr : ℕ) → (init_io left_over depth data_size i addr).flags ≡ 5
unfolding init_io
init_io-flags left_over depth data_size i addr = refl

module _ (left_over : ℕ → ℕ) (buf : ℕ → Option ℕ) (depth data_size : ℕ) where
  init_ios-Made :
      (left i : ℕ) {ios : List Io}
      → init_ios left_over buf depth data_size left i ≡ some ios
      → Made depth i left ios
  init_ios-Made zero i {ios} e =
      let here : ios ≡ [] = unfold init_ios in ground arith in
      subst (Made depth i 0) (sym here) (record { slots = tt; count = refl; fresh = tt })
  init_ios-Made (suc left) i {ios} e =
      elim (Option-cases (if ltb i depth then allocated (buf i) else some 0)) [
        | inl bad ↦ absurd (unfold init_ios in ground arith)
        | inr (addr, got) ↦
            elim (Option-cases (init_ios left_over buf depth data_size left (suc i))) [
              | inl bad ↦ absurd (unfold init_ios in ground arith)
              | inr (rest, more) ↦
                  let made = init_ios-Made left (suc i) more in
                  let here : ios ≡ init_io (left_over i) depth data_size i addr ∷ rest =
                    unfold init_ios in ground arith in
                  subst (Made depth i (suc left)) (sym here) (record {
                    slots = (init_io-SlotOk (left_over i) depth data_size i addr, made.slots);
                    count = ap suc made.count;
                    fresh = (init_io-flags (left_over i) depth data_size i addr, made.fresh);
                  })
            ]
      ]

-- A queue that has just been initialised for `dev` in the block `raw`.
pub record IsReady {R : Type 0} (dev : Dev) (q_id : ℕ) (raw q : Queue R) : Type 0 where
  pub valid : IsQueue q
  pub depth : q.q_depth ≡ dev.dev_info.queue_depth
  pub id : q.q_id ≡ q_id
  pub unlocked : q.lock ≡ false
  pub quiet : q.tgt_io_inflight ≡ 0
  pub fetched : map sent q.sqes ≡ map sent raw.sqes ++ fetches dev.dev_info.queue_depth 0

-- The number of rounds of the loop over the slots.
abbrev pub slot_count : Dev → ℕ
slot_count dev = let n = (ublksrv_calculate_depths dev).nr_ios in if is_neg n then 0 else n

slot_count-sum :
    (dev : Dev)
    → dev.dev_info.queue_depth + dev.tgt.extra_ios ≤ 2 ^ 16
    → slot_count dev ≡ dev.dev_info.queue_depth + dev.tgt.extra_ios
unfolding ublksrv_calculate_depths
slot_count-sum dev h = ground arith

module _ {R : Type 0} ⦃m : Ioctl⦄ ⦃u : Uring R⦄ (answers : Answers R) (dev : Dev) (q_id : ℕ)
    (raw : Queue R) where
  abbrev pub ring_of : R
  ring_of = let d = ublksrv_calculate_depths dev in (answers.ring_init d.ring_depth d.cq_depth).1

  -- An initialisation that does not return NULL.
  pub record Passed (run : Run R ℕ) : Type 0 where
    pub descs : ℕ → IoDesc
    pub ios : List Io
    pub made :
        init_ios answers.left_over answers.io_buf dev.dev_info.queue_depth
          (io_data_size dev)
          (slot_count dev)
          0
        ≡ some ios
    pub ring_made :
        let d = ublksrv_calculate_depths dev in
        is_neg (answers.ring_init d.ring_depth d.cq_depth).0 ≡ false
    pub runs :
        run
        ≡ and_then
            (submit_fetch dev.dev_info.queue_depth 0 (filled_queue dev q_id descs ios ring_of raw))
            finish_init

  pub queue_init-Passed :
      {run : Run R ℕ} → ublksrv_queue_init answers dev q_id raw ≡ some run → Passed run
  unfolding ublksrv_queue_init
  queue_init-Passed e = elim (Option-cases answers.map_cmd_buf) [
    | inl bad ↦ absurd (ground arith)
    | inr (descs, mapped) ↦
        elim (Option-cases (
          init_ios answers.left_over answers.io_buf dev.dev_info.queue_depth (io_data_size dev)
            (slot_count dev) 0)) [
              | inl bad ↦ absurd (ground arith)
              | inr (ios, made) ↦ record {
                descs = descs;
                ios = ios;
                made = made;
                ring_made = ground arith;
                runs = ground arith;
              }
            ]
  ]

ring_holds :
    (dev : Dev) (room : ℕ)
    → dev.dev_info.queue_depth < 2 ^ 16
    → dev.tgt.tgt_ring_depth < 2 ^ 31 - 1
    → (ublksrv_calculate_depths dev).ring_depth ≤ room
    → dev.dev_info.queue_depth ≤ room
ring_holds dev room p q h = omega (arith, (calculate_depths-max dev p q).0)

finish_runs :
    {R : Type 0} (r : Run R ℕ) {n : ℕ} {q : Queue R}
    → r ≡ ok n q
    → and_then r finish_init ≡ ok 0 (record q { tgt_io_inflight = 0; lock = false })
finish_runs r e = rw e

module _ {R : Type 0} ⦃m : Ioctl⦄ ⦃u : Uring R⦄ (laws : IsIoctl m) (full : HasRoom u) where
  filled-CanFetch :
      (dev : Dev) (q_id : ℕ) (descs : ℕ → IoDesc) (ring : R) (raw : Queue R) (n : ℕ) {ios : List Io}
      → Made dev.dev_info.queue_depth 0 n ios
      → dev.dev_info.queue_depth ≤ n
      → n ≤ 2 ^ 16
      → dev.dev_info.queue_depth ≤ full.room ring
      → raw.lock ≡ false
      → raw.tgt_io_inflight < 2 ^ 32
      → CanFetch full dev.dev_info.queue_depth 0 (filled_queue dev q_id descs ios ring raw)
  unfolding filled_queue
  filled-CanFetch dev q_id descs ring raw n {ios} made below fits room unlocked count = record {
    unlocked = unlocked;
    room = room;
    fresh = AllFresh-Fresh dev.dev_info.queue_depth 0 ios made.fresh (omega (arith, made.count));
    valid = record {
      depth_fits = omega (arith, made.count);
      tags_fit = omega (arith, made.count);
      count_fits = count;
      slots = made.slots;
    };
    fits = omega (arith, made.count);
  }

  ready :
      (dev : Dev) (q_id : ℕ) (descs : ℕ → IoDesc) (ios : List Io) (ring : R) (raw q : Queue R)
      → IsQueue q
      → Evolves (filled_queue dev q_id descs ios ring raw) q
      → map sent q.sqes
        ≡ map sent (filled_queue dev q_id descs ios ring raw).sqes
          ++ fetches dev.dev_info.queue_depth 0
      → IsReady dev q_id raw (record q { tgt_io_inflight = 0; lock = false })
  unfolding filled_queue
  ready dev q_id descs ios ring raw q v ev log = record {
    valid = record {
      depth_fits = v.depth_fits;
      tags_fit = v.tags_fit;
      count_fits = omega arith;
      slots = v.slots;
    };
    depth = ev.same_depth;
    id = ev.same_id;
    unlocked = refl;
    quiet = refl;
    fetched = log;
  }

  -- Initialisation is complete: where it does not return NULL, it returns a well-formed queue with
  -- the mutex free and nothing in flight, which has submitted exactly one fetch for each slot of
  -- the driver, in order, and no other command. The rings are created at the depths that
  -- `ublksrv_calculate_depths` gives, and a ring that is created has room for its depth; the
  -- slots are at most 2 ^ 16; and the block from `malloc` holds a free mutex, since the code
  -- initialises that only later.
  pub queue_init-IsReady :
      (answers : Answers R) (dev : Dev) (q_id : ℕ) (raw : Queue R) {run : Run R ℕ}
      → ublksrv_queue_init answers dev q_id raw ≡ some run
      → dev.dev_info.queue_depth + dev.tgt.extra_ios ≤ 2 ^ 16
      → dev.dev_info.queue_depth < 2 ^ 16
      → dev.tgt.tgt_ring_depth < 2 ^ 31 - 1
      → ((depth cq_depth : ℕ)
          → is_neg (answers.ring_init depth cq_depth).0 ≡ false
          → depth ≤ full.room (answers.ring_init depth cq_depth).1)
      → raw.lock ≡ false
      → raw.tgt_io_inflight < 2 ^ 32
      → (q : Queue R) × (run ≡ ok 0 q) × IsReady dev q_id raw q
  queue_init-IsReady answers dev q_id raw e slots depth target room unlocked count =
      let p = queue_init-Passed answers dev q_id raw e in
      let d = ublksrv_calculate_depths dev in
      let made =
        init_ios-Made answers.left_over answers.io_buf dev.dev_info.queue_depth (io_data_size dev)
          (slot_count dev) 0 p.made in
      let can =
        filled-CanFetch dev q_id p.descs (ring_of answers dev q_id raw) raw (slot_count dev) made
          (omega (arith, slot_count-sum dev slots)) (omega (arith, slot_count-sum dev slots))
          (ring_holds dev (full.room (ring_of answers dev q_id raw)) depth target
            (room d.ring_depth d.cq_depth p.ring_made))
          unlocked count in
      let (q, run', v, ev, open_, log) =
        submit_fetch-all laws full dev.dev_info.queue_depth 0
          (filled_queue dev q_id p.descs p.ios (ring_of answers dev q_id raw) raw) can in
      (
        record q { tgt_io_inflight = 0; lock = false },
        p.runs
            ∙ finish_runs
                (submit_fetch dev.dev_info.queue_depth 0
                  (filled_queue dev q_id p.descs p.ios (ring_of answers dev q_id raw) raw))
                run',
        ready dev q_id p.descs p.ios (ring_of answers dev q_id raw) raw q v ev log,
      )

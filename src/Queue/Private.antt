-- ===== src/Queue/Private.antt =====
-- The block behind the `private_data` of each slot, which `ublksrv_queue_init` allocates and
-- `demo_handle_io_async` writes to.
pub mod Overruns
use mathlib.Core.Path.{subst}
use go_ublksrv.Base.{
  ℕ, zero, suc, ◌≡◌, ◌==◌, refl, sym, ap, none, some, List, [], ◌∷◌, get_elem?, set, arith, bit_or,
  not, ◌&&◌, Bool, true, false, Bool-cases, Option-cases, inl, inr,
}
use go_ublksrv.Bits.{has}
use go_ublksrv.Ioctl.{Ioctl}
use go_ublksrv.Uring.{Uring, Cqe}
use go_ublksrv.Host.{Host}
use go_ublksrv.UserData.{user_data_to_tag, is_target_io}
use go_ublksrv.Queue.Flags.{
  ublk_io_res_ok, ublk_io_res_need_get_data, ublk_io_res_abort, ublksrv_queue_stopping,
  ublksrv_need_get_data, ublksrv_io_free,
}
use go_ublksrv.Queue.Types.{Io, Queue, Run, ok, and_then, and_then-ok}
use go_ublksrv.Queue.IoCmd.{ublksrv_mark_io_done, ublksrv_queue_io_cmd, ublksrv_complete_io}
use go_ublksrv.Queue.IoCmd.Cases.{idle, full, sent, queue_io_cmd-Returned}
use go_ublksrv.Queue.Request.{with_seq, demo_handle_io_async}
use go_ublksrv.Queue.Cqe.{stop_fetching, set_flags, dispatch_res, ublksrv_handle_cqe}
use go_ublksrv.Queue.Process.{submit_and_wait}
use go_ublksrv.Queue.Protocol.{Event, handed, answered, submitted, perform, perform_all}

-- The size of a slot's block.
abbrev pub room_of : Io → ℕ
room_of io = io.io_data.private_data.size

-- Each block has this size.
abbrev pub AllHave : (size : ℕ) → List Io → Type 0
AllHave size [] = Unit {0}
AllHave size (io ∷ ios) = (room_of io ≡ size) × AllHave size ios

pub AllHave-get :
    (size : ℕ) (ios : List Io) (i : ℕ) {io : Io}
    → AllHave size ios
    → get_elem? ios i ≡ some io
    → room_of io ≡ size
AllHave-get size [] i a e = absurd (ground arith)
AllHave-get size (x ∷ ios) zero a e = ground (arith, a.0)
AllHave-get size (x ∷ ios) (suc i) a e = AllHave-get size ios i a.1 e

AllHave-set :
    (size : ℕ) (ios : List Io) (i : ℕ) (io : Io)
    → AllHave size ios
    → room_of io ≡ size
    → AllHave size (set ios i io)
AllHave-set size [] i io a e = tt
AllHave-set size (x ∷ ios) zero io a e = (e, a.1)
AllHave-set size (x ∷ ios) (suc i) io a e = (a.0, AllHave-set size ios i io a.1 e)

module _ {R : Type 0} ⦃m : Ioctl⦄ ⦃u : Uring R⦄ where
  pub queue_io_cmd-AllHave :
      (size tag : ℕ) (q : Queue R) {r : ℕ} {q' : Queue R}
      → AllHave size q.ios
      → ublksrv_queue_io_cmd tag q ≡ ok r q'
      → AllHave size q'.ios
  queue_io_cmd-AllHave size tag q a e =
      let back = queue_io_cmd-Returned tag q e in
      elim back.way [
        | idle can ret same ↦ subst (λ (p : Queue R). AllHave size p.ios) (sym same) a
        | full can none_left ret same ↦ subst (λ (p : Queue R). AllHave size p.ios) (sym same) a
        | sent ring user_data can got built ret same ↦
            subst (λ (p : Queue R). AllHave size p.ios) (sym same)
              (AllHave-set size q.ios tag (record (back.io) { flags = 0 }) a
                (AllHave-get size q.ios tag a back.slot))
      ]

  complete_io-AllHave :
      (size tag res : ℕ) (q : Queue R) {r : ℕ} {q' : Queue R}
      → AllHave size q.ios
      → ublksrv_complete_io tag res q ≡ ok r q'
      → AllHave size q'.ios
  unfolding ublksrv_complete_io ublksrv_mark_io_done
  complete_io-AllHave size tag res q {r = r} {q' = q'} a e =
      elim (Option-cases (get_elem? q.ios tag)) [
        | inl outside ↦ absurd (ground arith)
        | inr (io, slot) ↦
            let io' = ublksrv_mark_io_done io res in
            queue_io_cmd-AllHave size tag (record q { ios = set q.ios tag io' }) {r = r} {q' = q'}
              (AllHave-set size q.ios tag io' a (AllHave-get size q.ios tag a slot)) (ground arith)
      ]

module _ {R : Type 0} ⦃h : Host⦄ where
  demo_handle-AllHave :
      (size tag : ℕ) (q : Queue R) {r : ℕ} {q' : Queue R}
      → AllHave size q.ios
      → demo_handle_io_async tag q ≡ ok r q'
      → AllHave size q'.ios
  unfolding demo_handle_io_async
  demo_handle-AllHave size tag q {q' = q'} a e = elim (Option-cases (get_elem? q.ios tag)) [
    | inl outside ↦ absurd (ground arith)
    | inr (io, slot) ↦ elim (Option-cases io.io_data.iod) [
      | inl null ↦ absurd (ground arith)
      | inr (offset, at) ↦
          let same : q'.ios ≡ set q.ios tag (with_seq io) = ground arith in
          subst (AllHave size) (sym same)
            (AllHave-set size q.ios tag (with_seq io) a (AllHave-get size q.ios tag a slot))
    ]
  ]

module _ {R : Type 0} ⦃m : Ioctl⦄ ⦃u : Uring R⦄ ⦃h : Host⦄ where
  dispatch-AllHave :
      (size tag res : ℕ) (q : Queue R) {r : ℕ} {q' : Queue R}
      → AllHave size q.ios
      → dispatch_res tag res q ≡ ok r q'
      → AllHave size q'.ios
  unfolding dispatch_res set_flags
  dispatch-AllHave size tag res q {r = r} {q' = q'} a e =
      elim (Option-cases (get_elem? q.ios tag)) [
        | inl outside ↦ absurd (ground arith)
        | inr (io, slot) ↦
            let own = AllHave-get size q.ios tag a slot in
            elim (Bool-cases (res == ublk_io_res_ok)) [
              | inl fetched ↦ demo_handle-AllHave size tag q {r = r} {q' = q'} a (ground arith)
              | inr other ↦ elim (Bool-cases (res == ublk_io_res_need_get_data)) [
                | inl wants ↦
                    let f = bit_or io.flags (bit_or ublksrv_need_get_data ublksrv_io_free) in
                    queue_io_cmd-AllHave size tag (set_flags tag f io q) {r = r} {q' = q'}
                      (AllHave-set size q.ios tag (record io { flags = f }) a own) (ground arith)
                | inr rest ↦
                    let io' = record io { flags = ublksrv_io_free } in
                    let same : q'.ios ≡ set q.ios tag io' = ground arith in
                    subst (AllHave size) (sym same) (AllHave-set size q.ios tag io' a own)
              ]
            ]
      ]

  stop-AllHave :
      (size tag : ℕ) (fetch : Bool) (io : Io) (q : Queue R)
      → AllHave size q.ios
      → room_of io ≡ size
      → AllHave size (stop_fetching fetch tag io q).ios
  unfolding stop_fetching
  stop-AllHave size tag true io q a own = a
  stop-AllHave size tag false io q a own = AllHave-set size q.ios tag _ a own

  handle_cqe-AllHave :
      (size : ℕ) (cqe : Cqe) (q : Queue R) {r : ℕ} {q' : Queue R}
      → AllHave size q.ios
      → ublksrv_handle_cqe cqe q ≡ ok r q'
      → AllHave size q'.ios
  unfolding ublksrv_handle_cqe
  handle_cqe-AllHave size cqe q {r = r} {q' = q'} a e =
      let tag = user_data_to_tag cqe.user_data in
      let fetch = not (cqe.res == ublk_io_res_abort) && not (has q.state ublksrv_queue_stopping) in
      elim (Bool-cases (is_target_io cqe.user_data)) [
        | inl other ↦
            let same : q' ≡ q = ground arith in
            subst (λ (p : Queue R). AllHave size p.ios) (sym same) a
        | inr own ↦ elim (Option-cases (get_elem? q.ios tag)) [
          | inl outside ↦ absurd (ground arith)
          | inr (io, slot) ↦
              dispatch-AllHave size tag cqe.res (stop_fetching fetch tag io q) {r = r} {q' = q'}
                (stop-AllHave size tag fetch io q a (AllHave-get size q.ios tag a slot))
                (ground arith)
        ]
      ]

  perform-AllHave :
      (size : ℕ) (ev : Event) (q : Queue R) {r : ℕ} {q' : Queue R}
      → AllHave size q.ios
      → perform ev q ≡ ok r q'
      → AllHave size q'.ios
  unfolding perform submit_and_wait
  perform-AllHave size (handed word) q a e =
      handle_cqe-AllHave size (record { user_data = word; res = ublk_io_res_ok }) q a e
  perform-AllHave size (answered tag res) q a e = complete_io-AllHave size tag res q a e
  perform-AllHave size (submitted timeout) q {q' = q'} a e =
      let same : q'.ios ≡ q.ios = ground arith in subst (AllHave size) (sym same) a

  pub perform_all-AllHave :
      (size : ℕ) (es : List Event) (n : ℕ) (q : Queue R) {r : ℕ} {q' : Queue R}
      → AllHave size q.ios
      → perform_all es n q ≡ ok r q'
      → AllHave size q'.ios
  unfolding perform_all
  perform_all-AllHave size [] n q {q' = q'} a e =
      let same : q'.ios ≡ q.ios = ground arith in subst (AllHave size) (sym same) a
  perform_all-AllHave size (ev ∷ es) n q a e =
      let (n1, q1, run, rest) = and_then-ok (perform ev q) (λ _. perform_all es n) e in
      perform_all-AllHave size es n q1 (perform-AllHave size ev q a run) rest

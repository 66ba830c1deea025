-- ===== src/Queue/Cqe.antt =====
-- Completions of io commands.
pub mod Returns
use go_ublksrv.Base.{
  ℕ, ◌+◌, bit_or, Bool, true, false, not, ◌&&◌, none, some, List, [], ◌∷◌, ◌==◌, if◌then◌else◌,
  get_elem?, set,
}
use go_ublksrv.Bits.{has, clear}
use go_ublksrv.Ioctl.{Ioctl}
use go_ublksrv.Uring.{Uring, Cqe}
use go_ublksrv.Host.{Host}
use go_ublksrv.UserData.{user_data_to_tag, is_target_io}
use go_ublksrv.Queue.Flags.{
  ublksrv_need_fetch_rq, ublksrv_io_free, ublksrv_need_get_data, ublksrv_queue_stopping,
  ublk_io_res_ok, ublk_io_res_need_get_data, ublk_io_res_abort,
}
use go_ublksrv.Queue.Types.{Io, Queue, Run, ok, fault, ◌>>=◌, ◌>>◌}
use go_ublksrv.Queue.IoCmd.{ublksrv_queue_io_cmd}
use go_ublksrv.Queue.Request.{demo_handle_io_async}

module _ {R : Type 0} where
  -- `if (!fetch) ...`: the queue is stopping from now on, and the slot fetches no more.
  unfoldable pub stop_fetching : (fetch : Bool) (tag : ℕ) → Io → Queue R → Queue R
  stop_fetching true tag io q = q
  stop_fetching false tag io q = record q {
    state = bit_or q.state ublksrv_queue_stopping;
    ios = set q.ios tag (record io { flags = clear io.flags ublksrv_need_fetch_rq });
  }

  unfoldable pub set_flags : (tag flags : ℕ) → Io → Queue R → Queue R
  set_flags tag flags io q = record q { ios = set q.ios tag (record io { flags = flags }) }

module _ {R : Type 0} ⦃m : Ioctl⦄ ⦃u : Uring R⦄ ⦃h : Host⦄ where
  -- The three results that the handler tells apart.
  unfoldable pub dispatch_res : (tag res : ℕ) → Queue R → Run R ℕ
  unfolding demo_handle_io_async ublksrv_queue_io_cmd set_flags
  dispatch_res tag res q = elim (get_elem? q.ios tag) [
    | none ↦ fault
    | some io ↦
        if res == ublk_io_res_ok
        then demo_handle_io_async tag q
        else if res == ublk_io_res_need_get_data
        then ublksrv_queue_io_cmd tag
            (set_flags tag (bit_or io.flags (bit_or ublksrv_need_get_data ublksrv_io_free)) io q)
        else ok 0 (set_flags tag ublksrv_io_free io q)
  ]

  unfoldable pub ublksrv_handle_cqe : Cqe → Queue R → Run R ℕ
  unfolding stop_fetching dispatch_res
  ublksrv_handle_cqe cqe q =
      let tag = user_data_to_tag cqe.user_data in
      let fetch = not (cqe.res == ublk_io_res_abort) && not (has q.state ublksrv_queue_stopping) in
      if is_target_io cqe.user_data then ok 0 q else elim (get_elem? q.ios tag) [
        | none ↦ fault
        | some io ↦ dispatch_res tag cqe.res (stop_fetching fetch tag io q)
      ]

  -- The loop over the completions, with its count.
  unfoldable pub handle_cqes : List Cqe → ℕ → Queue R → Run R ℕ
  handle_cqes [] count q = ok count q
  handle_cqes (c ∷ cs) count q = (ublksrv_handle_cqe c >> handle_cqes cs (count + 1)) q

  abbrev pub advance : ℕ → Queue R → Run R ℕ
  advance count q = ok count (record q { ring = u.cq_advance count q.ring })

  unfoldable pub ublksrv_reap_events_uring : Queue R → Run R ℕ
  unfolding handle_cqes ublksrv_handle_cqe
  ublksrv_reap_events_uring q = (handle_cqes (u.cqes q.ring) 0 >>= advance) q

-- ===== src/Queue/Workers.antt =====
-- The limits of the io-wq workers, which the queues of a device set one after another.
use go_ublksrv.Base.{ℕ, ◌&&◌, ◌==◌, if◌then◌else◌}

-- `io_uring_register_iowq_max_workers`: a result, what is then in the array, and the ring.
pub record Workers (R : Type 0) : Type 0 where
  pub register : ℕ × ℕ → R → ℕ × (ℕ × ℕ) × R

abbrev pub unless_zero : (wanted other : ℕ) → ℕ
unless_zero wanted other = if wanted == 0 then other else wanted

-- `iowq_max` is `dev->tgt.iowq_max_workers`, which is written; the results of the two calls are only
-- printed.
unfoldable pub ublksrv_queue_adjust_uring_io_wq_workers :
    {R : Type 0} ⦃w : Workers R⦄ → (iowq_max : ℕ × ℕ) → R → (ℕ × ℕ) × R
ublksrv_queue_adjust_uring_io_wq_workers ⦃w⦄ iowq_max ring =
    let asked = w.register (0, 0) ring in
    let wanted : ℕ × ℕ = (unless_zero iowq_max.0 asked.1.0, unless_zero iowq_max.1 asked.1.1) in
    let set_ = w.register wanted asked.2 in
    if (iowq_max.0 == 0) && (iowq_max.1 == 0) then (iowq_max, ring) else (set_.1, set_.2)

-- ===== src/Ctrl/Affinity/Layout.antt =====
-- Where the sets of CPUs are written and read.
use go_ublksrv.Base.{ℕ, ◌+◌, ◌<◌, ◌≤◌, ◌≡◌, ◌⊎◌, ◌↔◌, false, arith, Bool-cases, inl, inr}
use go_ublksrv.Dev.{DevInfo, ublk_is_unprivileged}
use go_ublksrv.Ctrl.Affinity.{
  sizeof_cpu_set, path_len_of, affinity_len, block_at, ublksrv_get_queue_affinity,
  ublksrv_set_sched_affinity,
}

-- The set that the driver writes for queue `i` stands behind the path in its block.
abbrev pub written_at : DevInfo → (i : ℕ) → ℕ
written_at info i = block_at info i + path_len_of info

-- For each queue, the only one included: its block ends before the block of any later queue, or the
-- end of the buffer, begins, and the set that its thread gives to the scheduler lies in the buffer.
-- But that is the set that the driver wrote for the queue only if the device is privileged or the
-- queue is the first: for any other queue of an unprivileged device it begins elsewhere.
pub affinity_layout :
    (info : DevInfo) (i later : ℕ)
    → i < later
    → later ≤ info.nr_hw_queues
    → (block_at info i + (sizeof_cpu_set + path_len_of info) ≤ block_at info later)
      × (block_at info later ≤ affinity_len info)
      × ((ublksrv_set_sched_affinity info i).0 + (ublksrv_set_sched_affinity info i).1
          ≤ affinity_len info)
      × (((ublksrv_set_sched_affinity info i).0 ≡ written_at info i)
          ↔ ((ublk_is_unprivileged info ≡ false) ⊎ (i ≡ 0)))
unfolding affinity_len block_at path_len_of ublksrv_get_queue_affinity ublksrv_set_sched_affinity
affinity_layout info i later h k = elim (Bool-cases (ublk_is_unprivileged info)) [
  | inl unpriv ↦ (ground arith, ground arith, ground arith, ground arith)
  | inr priv ↦ (ground arith, ground arith, ground arith, ground arith)
]

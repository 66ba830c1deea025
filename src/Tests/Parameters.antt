-- ===== src/Tests/Parameters.antt =====
-- Parameters and CPUs at the drivers of the tests.
use go_ublksrv.Base.{ℕ, ◌+◌, ◌≤◌, ◌≡◌, ◌⊎◌, ◌↔◌, Bool, false, [], ◌∷◌, arith}
use go_ublksrv.Dev.{DevInfo, ublk_is_unprivileged}
use go_ublksrv.Ctrl.Ops.{ublk_cmd_set_params}
use go_ublksrv.Ctrl.Types.{Params, Memory}
use go_ublksrv.Ctrl.Cmd.{CtrlSqe}
use go_ublksrv.Ctrl.Send.{CtrlDev, answered}
use go_ublksrv.Tests.Drivers.{Store, storing}
use go_ublksrv.Ctrl.Params.{init_params}
use go_ublksrv.Ctrl.Params.Sets.{CarriesParams}
use go_ublksrv.Ctrl.Params.Fits.{FitsDev, init_params-FitsDev}
use go_ublksrv.Ctrl.Affinity.{
  sizeof_cpu_set, path_len_of, affinity_len, block_at, ublksrv_set_sched_affinity,
}
use go_ublksrv.Ctrl.Affinity.Layout.{written_at, affinity_layout}
use go_ublksrv.Tests.Machine.{linux, linux-IsIoctl}
use go_ublksrv.Tests.Drivers.{nobody, few, few-bound, free_entry, asked_dev, storing}

init_params-FitsDev_example :
    (ret : ℕ) × (memory : Memory) × (dev' : CtrlDev Bool) × (sqe : CtrlSqe) × (p : Params)
    × (init_params 2 2048 asked_dev ≡ answered ret memory dev')
    × (dev'.sent ≡ sqe ∷ [])
    × CarriesParams ublk_cmd_set_params asked_dev.dev_info p sqe
    × FitsDev asked_dev.dev_info 2048 p
init_params-FitsDev_example =
    init_params-FitsDev linux-IsIoctl few free_entry 2 few-bound 2048 asked_dev

abbrev last_queue : ℕ
last_queue = 2

-- An unprivileged device of three queues.
abbrev three_queues : DevInfo
three_queues = record (asked_dev.dev_info) { nr_hw_queues = 3 }

affinity_layout_example :
    (block_at three_queues 2 + (sizeof_cpu_set + path_len_of three_queues)
      ≤ block_at three_queues 3)
    × (block_at three_queues 3 ≤ affinity_len three_queues)
    × ((ublksrv_set_sched_affinity three_queues 2).0 + (ublksrv_set_sched_affinity three_queues 2).1
        ≤ affinity_len three_queues)
    × (((ublksrv_set_sched_affinity three_queues 2).0 ≡ written_at three_queues 2)
        ↔ ((ublk_is_unprivileged three_queues ≡ false) ⊎ (last_queue ≡ 0)))
affinity_layout_example = affinity_layout three_queues 2 3 (omega arith) (omega arith)

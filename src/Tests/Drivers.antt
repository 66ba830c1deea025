-- ===== src/Tests/Drivers.antt =====
-- A driver that knows no device and is interrupted once for each command, and one that stores the
-- parameters of a device.
use go_ublksrv.Base.{
  Option, sym, ap, ℕ, suc, ◌<◌, ◌≡◌, Bool, true, false, refl, none, some, [], arith, if◌then◌else◌,
  ◌==◌,
}
use go_ublksrv.Word.{minus, eintr, enodev}
use go_ublksrv.Ctrl.Types.{Params, Memory, null_addr}
use go_ublksrv.Ctrl.Cmd.{CtrlSqe}
use go_ublksrv.Ctrl.Send.{CtrlRing, FewSignals, CtrlDev}
use go_ublksrv.Ctrl.Info.Queries.{NeverFull}
use go_ublksrv.Tests.Machine.{linux}
use go_ublksrv.Ctrl.Params.Driver.{refill, KeepsParams}
use go_ublksrv.Bits.{has}
use go_ublksrv.Ctrl.Params.{
  ublk_param_type_basic, ublk_param_type_discard, initial_params, params_in,
}
use go_ublksrv.Ctrl.Ops.{ublk_cmd_set_params, ublk_cmd_get_params}
use go_ublksrv.Tests.Devices.{small_dev}

-- The state is whether a signal is pending.
instance abbrev pub nobody : CtrlRing Bool
nobody = record {
  get_sqe = λ k. some k;
  submit = λ sqe k. (1, true);
  wait_cqe = λ k. if k then (minus eintr, false) else (0, false);
  cqe = λ k. (minus enodev, null_addr);
  cqe_seen = λ k. k;
}

abbrev pending : Bool → ℕ
pending k = if k then 1 else 0

nobody-fewer :
    (k : Bool)
    → (nobody.wait_cqe k).0 ≡ minus eintr
    → (n : ℕ) × (pending k ≡ suc n) × (pending (nobody.wait_cqe k).1 ≡ n)
nobody-fewer true e = (0, refl, refl)
nobody-fewer false e = absurd (omega arith)

pub few : FewSignals nobody
few = record { signals = pending; fewer = nobody-fewer }

pub few-bound : (k : Bool) → few.signals k < 2
unfolding few
few-bound true = omega arith
few-bound false = omega arith

pub free_entry : NeverFull nobody
free_entry k = (k, refl)

abbrev pub asked_dev : CtrlDev Bool
asked_dev = record {
  ring = false;
  ctrl_fd = 5;
  dev_info = record (small_dev.dev_info) { flags = 32 };
  sent = [];
}

-- The parameters in the memory of an entry.
abbrev sent_params : CtrlSqe → Params → Params
sent_params sqe old = elim sqe.addr_len [ none ↦ old | some (memory, len) ↦ params_in memory old ]

abbrev written : CtrlSqe → Params → Params
written sqe old = if linux.ioc_nr sqe.off.0 == ublk_cmd_set_params then sent_params sqe old else old

abbrev reply : CtrlSqe → Params → Memory
reply sqe p = elim sqe.addr_len [
  | none ↦ null_addr
  | some (memory, len) ↦
      if linux.ioc_nr sqe.off.0 == ublk_cmd_get_params then refill memory p else memory
]

-- The parameters, and the entry that was submitted last.
pub record Store : Type 0 where
  pub params : Params
  pub last : CtrlSqe

instance abbrev pub storing : CtrlRing Store
storing = record {
  get_sqe = λ k. some k;
  submit = λ sqe k. (1, record { params = Store.params k; last = sqe });
  wait_cqe = λ k. (0, k);
  cqe = λ k. (0, reply (Store.last k) (Store.params k));
  cqe_seen = λ k. record { params = written (Store.last k) (Store.params k); last = Store.last k };
}

unsignalled : (k : Store) → (storing.wait_cqe k).0 ≡ minus eintr → (n : ℕ) × (0 ≡ suc n) × (0 ≡ n)
unsignalled k e = absurd (omega arith)

pub no_signals : FewSignals storing
no_signals = record { signals = λ k. 0; fewer = unsignalled }

pub no_signals-bound : (k : Store) → no_signals.signals k < 1
unfolding no_signals
no_signals-bound k = omega arith

pub some_entry : NeverFull storing
some_entry k = (k, refl)

same_params : (k : Store) {k' : Store} → storing.get_sqe k ≡ some k' → k'.params ≡ k.params
same_params k {k'} e =
    ap (λ (o : Option Store). elim o [ none ↦ k.params | some j ↦ j.params ]) (sym e)

taken :
    (k : Store) {memory : Memory} {len : ℕ}
    → linux.ioc_nr (k.last).off.0 ≡ ublk_cmd_set_params
    → (k.last).addr_len ≡ some (memory, len)
    → written k.last k.params ≡ params_in memory k.params
taken k number addr = rw (number, addr) refl

given :
    (k : Store) {memory : Memory} {len : ℕ}
    → linux.ioc_nr (k.last).off.0 ≡ ublk_cmd_get_params
    → (k.last).addr_len ≡ some (memory, len)
    → reply k.last k.params ≡ refill memory k.params
given k number addr = rw (addr, number) refl

pub storing-KeepsParams : KeepsParams storing
storing-KeepsParams = record {
  kept = λ k. Store.params k;
  asked = λ k. Store.last k;
  entry = λ k e. same_params k e;
  submits = λ s k e. (refl, refl);
  waits = λ k. (refl, refl);
  sets_basic = λ k number addr fine named. ap (λ (p : Params). p.basic) (taken k number addr);
  sets_discard = λ k number addr fine named. ap (λ (p : Params). p.discard) (taken k number addr);
  gets = λ k number addr fine. (Store.params k, given k number addr, refl, refl);
}

abbrev pub small_params : Params
unfolding initial_params
small_params = initial_params small_dev.dev_info 2048

pub small_params-types :
    (has small_params.types ublk_param_type_basic ≡ true)
    × (has small_params.types ublk_param_type_discard ≡ true)
unfolding small_params initial_params has
small_params-types = (refl, refl)

-- Other parameters: those of a device without sectors.
abbrev pub empty_params : Params
unfolding initial_params
empty_params = initial_params small_dev.dev_info 0

-- A command that the driver has had before.
abbrev old_entry : CtrlSqe
old_entry = record {
  opcode = 0;
  ioprio = 0;
  off = (0, 0);
  fd = 0;
  dev_id = 0;
  queue_id = 0;
  data_path_len = none;
  addr_len = none;
}

abbrev pub stored_dev : CtrlDev Store
unfolding initial_params
stored_dev = record {
  ring = record { params = empty_params; last = old_entry };
  ctrl_fd = 5;
  dev_info = asked_dev.dev_info;
  sent = [];
}

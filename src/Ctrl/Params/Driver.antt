-- ===== src/Ctrl/Params/Driver.antt =====
-- What ublkhelper.h says of the driver's parameters.
use go_ublksrv.Base.{
  ℕ, zero, suc, ◌<◌, ◌≡◌, ◌⊎◌, ◌++◌, ◌∙◌, true, false, refl, some, [], ◌∷◌, arith, ◌==◌, Bool-cases,
  inl, inr,
}
use go_ublksrv.Bits.{has}
use go_ublksrv.Word.{is_neg, minus, eintr}
use go_ublksrv.Ioctl.{Ioctl}
use go_ublksrv.Ctrl.Types.{
  Params, Memory, null_addr, own_info, path, path_info, own_params, path_params, cpu_set,
  path_cpu_set,
}
use go_ublksrv.Ctrl.Ops.{ublk_cmd_set_params, ublk_cmd_get_params}
use go_ublksrv.Ctrl.Cmd.{CtrlSqe}
use go_ublksrv.Ctrl.Send.{CtrlRing, FewSignals, CtrlDev, answered, wait_cqe, submit_cmd}
use go_ublksrv.Ctrl.Params.{params_in, ublk_param_type_basic, ublk_param_type_discard}

-- The same memory with other parameters in it.
abbrev pub refill : Memory → Params → Memory
refill memory p = elim memory [
  | own_params old ↦ own_params p
  | path_params id old ↦ path_params id p
  | null_addr ↦ null_addr
  | own_info i ↦ own_info i
  | path id ↦ path id
  | path_info id i ↦ path_info id i
  | cpu_set at cpus ↦ cpu_set at cpus
  | path_cpu_set at id cpus ↦ path_cpu_set at id cpus
]

-- A driver with the parameters of one device, which are those `kept` after the completions that were
-- seen. A SET_PARAMS that is answered without an error sets the basic and the discard parameters
-- whose types it names; the driver may change `len` and `types`, and `devt` cannot be set. A
-- GET_PARAMS that is answered without an error fills in what is kept. A command that fails may
-- leave anything.
pub record KeepsParams {K : Type 0} ⦃m : Ioctl⦄ (c : CtrlRing K) : Type 0 where
  pub kept : K → Params
  pub asked : K → CtrlSqe
  pub entry : (k : K) {k' : K} → c.get_sqe k ≡ some k' → kept k' ≡ kept k
  pub submits :
      (s : CtrlSqe) (k : K)
      → is_neg (c.submit s k).0 ≡ false
      → (kept (c.submit s k).1 ≡ kept k) × (asked (c.submit s k).1 ≡ s)
  pub waits : (k : K) → (kept (c.wait_cqe k).1 ≡ kept k) × (asked (c.wait_cqe k).1 ≡ asked k)
  pub sets_basic :
      (k : K) {memory : Memory} {len : ℕ}
      → m.ioc_nr (asked k).off.0 ≡ ublk_cmd_set_params
      → (asked k).addr_len ≡ some (memory, len)
      → is_neg (c.cqe k).0 ≡ false
      → has (params_in memory (kept k)).types ublk_param_type_basic ≡ true
      → (kept (c.cqe_seen k)).basic ≡ (params_in memory (kept k)).basic
  pub sets_discard :
      (k : K) {memory : Memory} {len : ℕ}
      → m.ioc_nr (asked k).off.0 ≡ ublk_cmd_set_params
      → (asked k).addr_len ≡ some (memory, len)
      → is_neg (c.cqe k).0 ≡ false
      → has (params_in memory (kept k)).types ublk_param_type_discard ≡ true
      → (kept (c.cqe_seen k)).discard ≡ (params_in memory (kept k)).discard
  pub gets :
      (k : K) {memory : Memory} {len : ℕ}
      → m.ioc_nr (asked k).off.0 ≡ ublk_cmd_get_params
      → (asked k).addr_len ≡ some (memory, len)
      → is_neg (c.cqe k).0 ≡ false
      → (q : Params) × ((c.cqe k).1 ≡ refill memory q)
        × (q.basic ≡ (kept k).basic)
        × (q.discard ≡ (kept k).discard)

module _ {K : Type 0} ⦃m : Ioctl⦄ ⦃c : CtrlRing K⦄ (few : FewSignals c)
    (driver : KeepsParams c) where
  wait-keeps :
      (fuel : ℕ) (k : K)
      → few.signals k < fuel
      → (ret : ℕ) × (k' : K) × (wait_cqe fuel k ≡ some (ret, k'))
        × (driver.kept k' ≡ driver.kept k)
        × (driver.asked k' ≡ driver.asked k)
  unfolding wait_cqe
  wait-keeps zero k h = absurd (omega arith)
  wait-keeps (suc fuel) k h =
      let (kept, asked) = driver.waits k in
      elim (Bool-cases ((c.wait_cqe k).0 == minus eintr)) [
        | inl interrupted ↦
            let (n, now, later) = few.fewer k (ground arith) in
            let (ret, k', run, kept', asked') = wait-keeps fuel (c.wait_cqe k).1 (omega arith) in
            (ret, k', ground arith, kept' ∙ kept, asked' ∙ asked)
        | inr other ↦ ((c.wait_cqe k).0, (c.wait_cqe k).1, ground arith, kept, asked)
      ]

  -- A command is answered: with an error, or by the completion of its entry.
  pub submit-answers :
      (fuel : ℕ) (addr : Memory) (sqe : CtrlSqe) (dev : CtrlDev K)
      → ((k : K) → few.signals k < fuel)
      → (ret : ℕ) × (memory : Memory) × (dev' : CtrlDev K) × (submit_cmd fuel addr sqe dev
          ≡ answered ret memory dev')
        × (dev'.dev_info ≡ dev.dev_info)
        × ((is_neg ret ≡ true)
            ⊎ ((k : K) × (driver.asked k ≡ sqe)
                × (driver.kept k ≡ driver.kept dev.ring)
                × (c.cqe k ≡ (ret, memory))
                × (dev'.ring ≡ c.cqe_seen k)))
  unfolding submit_cmd
  submit-answers fuel addr sqe dev bound =
      let (sent, k) = c.submit sqe dev.ring in
      let (ret, k', run, kept, asked) = wait-keeps fuel k (bound k) in
      let dev1 = record dev { ring = k; sent = dev.sent ++ (sqe ∷ []) } in
      elim (Bool-cases (is_neg sent)) [
        | inl refused ↦ (sent, addr, dev1, ground (arith, refused), refl, inl refused)
        | inr accepted ↦
            let (before, mine) = driver.submits sqe dev.ring accepted in
            elim (Bool-cases (is_neg ret)) [
              | inl failed ↦ (
                ret,
                addr,
                record dev1 { ring = k' },
                ground (arith, accepted, run, failed),
                refl,
                inl failed,
              )
              | inr fine ↦ (
                (c.cqe k').0,
                (c.cqe k').1,
                record dev1 { ring = c.cqe_seen k' },
                ground (arith, accepted, run, fine),
                refl,
                inr (k', asked ∙ mine, kept ∙ before, refl, refl),
              )
            ]
      ]

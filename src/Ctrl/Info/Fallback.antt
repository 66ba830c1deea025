-- ===== src/Ctrl/Info/Fallback.antt =====
-- What a privileged device is asked with.
use mathlib.Core.List.{append_assoc}
use go_ublksrv.Base.{
  ℕ, if◌then◌else◌, ◌<◌, ◌≡◌, ◌⊎◌, ◌++◌, ◌&&◌, ◌==◌, true, false, refl, some, List, [], ◌∷◌, arith,
  map, Bool-cases, inl, inr, ◌∙◌, ap,
}
use go_ublksrv.Word.{is_neg, minus, einval}
use go_ublksrv.Ioctl.{Ioctl, IsIoctl}
use go_ublksrv.Dev.{DevInfo, ublk_is_unprivileged}
use go_ublksrv.Ctrl.Ops.{
  ublk_cmd_get_dev_info, ublk_cmd_get_dev_info2, legacy_op_to_ioctl, ioc_nr-legacy_op_to_ioctl,
}
use go_ublksrv.Ctrl.Types.{Memory, null_addr}
use go_ublksrv.Ctrl.Send.{CtrlRing, FewSignals, CtrlDev, answered, ublksrv_ctrl_cmd}
use go_ublksrv.Ctrl.Info.{
  info_cmd, keep_info, get_info_no_trans, get_info_op, ublksrv_ctrl_get_info,
}
use go_ublksrv.Ctrl.Info.Queries.{
  NeverFull, numbers, info_cmd-fits, keep_info-numbers, ctrl_cmd-numbers,
}

module _ {K : Type 0} ⦃m : Ioctl⦄ ⦃c : CtrlRing K⦄ (fuel : ℕ) (junk : DevInfo) where
  -- One query: the command with this word is answered with `ret`, and `dev'` keeps what it tells.
  pub record Asks (word : ℕ) (dev : CtrlDev K) (ret : ℕ) (memory : Memory) (dev' : CtrlDev K)
      : Type 0 where
    pub device : CtrlDev K
    pub run : ublksrv_ctrl_cmd fuel (info_cmd junk word dev) dev ≡ answered ret memory device
    pub kept : dev' ≡ keep_info (m.ioc_nr word == ublk_cmd_get_dev_info2) ret memory device
    pub logged : numbers dev' ≡ numbers dev ++ (m.ioc_nr word ∷ [])

  -- Queries from a device on with these words, each but the last answered with an error, and the last
  -- with `ret`. Where a query has left the device unprivileged the next may be refused: it is not
  -- sent, and -EINVAL is the result.
  pub data Queries (ret : ℕ) (dev' : CtrlDev K) : CtrlDev K → List ℕ → Type 0 where
    last :
        {dev : CtrlDev K} (word : ℕ) (memory : Memory)
        → Asks word dev ret memory dev'
        → Queries ret dev' dev (word ∷ [])
    refused :
        {dev : CtrlDev K} (word failure : ℕ) (memory : Memory)
        → Asks word dev failure memory dev'
        → is_neg failure ≡ true
        → ublk_is_unprivileged dev'.dev_info ≡ true
        → ret ≡ minus einval
        → Queries ret dev' dev (word ∷ [])
    fails :
        {dev next : CtrlDev K} (word failure : ℕ) (memory : Memory) (words : List ℕ)
        → Asks word dev failure memory next
        → is_neg failure ≡ true
        → Queries ret dev' next words
        → Queries ret dev' dev (word ∷ words)

  pub Queries-numbers :
      {ret : ℕ} {dev' dev : CtrlDev K} {words : List ℕ}
      → Queries ret dev' dev words
      → numbers dev' ≡ numbers dev ++ map m.ioc_nr words
  Queries-numbers (last word memory a) = a.logged
  Queries-numbers (refused word failure memory a bad unpriv e) = a.logged
  Queries-numbers (fails word failure memory words a bad more) =
      Queries-numbers more ∙ rw a.logged (simp append_assoc)

-- The words of the queries that answer `ret`, where `code2` and `code` encode GET_DEV_INFO2 and
-- GET_DEV_INFO.
pub data Order (code2 code ret : ℕ) : List ℕ → Type 0 where
  at_once : is_neg ret ≡ false → Order code2 code ret (code2 ∷ [])
  legacy : is_neg ret ≡ false → Order code2 code ret (code2 ∷ ublk_cmd_get_dev_info2 ∷ [])
  older :
      (is_neg ret ≡ false) ⊎ (ret ≡ minus einval)
      → Order code2 code ret (code2 ∷ ublk_cmd_get_dev_info2 ∷ code ∷ [])
  oldest : Order code2 code ret (code2 ∷ ublk_cmd_get_dev_info2 ∷ code ∷ ublk_cmd_get_dev_info ∷ [])

module _ {K : Type 0} ⦃m : Ioctl⦄ ⦃c : CtrlRing K⦄ (laws : IsIoctl m) (few : FewSignals c)
    (room : NeverFull c) (fuel : ℕ) (bound : (k : K) → few.signals k < fuel) where
  -- A query that is not refused; a failed GET_DEV_INFO2 leaves `dev_info` alone.
  no_trans-Asks :
      (junk : DevInfo) (n word : ℕ) (dev : CtrlDev K)
      → m.ioc_nr word ≡ n
      → (ublk_is_unprivileged dev.dev_info && n == ublk_cmd_get_dev_info) ≡ false
      → (ret : ℕ) × (memory : Memory) × (dev' : CtrlDev K) × (get_info_no_trans fuel junk word dev
          ≡ answered ret memory dev')
        × Asks fuel junk word dev ret memory dev'
        × ((if n == ublk_cmd_get_dev_info2 && is_neg ret then dev'.dev_info else dev.dev_info)
            ≡ dev.dev_info)
  unfolding get_info_no_trans
  no_trans-Asks junk n word dev e allowed =
      let (known, fits, op) = info_cmd-fits laws few room fuel bound junk word dev in
      let (ret, memory, device, run, same, log) =
        ctrl_cmd-numbers laws few room fuel bound (info_cmd junk word dev) dev known fits in
      let path = m.ioc_nr word == ublk_cmd_get_dev_info2 in
      (
        ret,
        memory,
        keep_info path ret memory device,
        ground (arith, e, allowed, run),
        record {
          device = device;
          run = run;
          kept = refl;
          logged =
              keep_info-numbers laws few room fuel bound path ret memory device
              ∙ log
              ∙ ap (λ (x : ℕ). numbers dev ++ (x ∷ [])) (ap m.ioc_nr op);
        },
        ground (arith, e, same),
      )

  -- Both encodings of GET_DEV_INFO2, on a privileged device, which stays so where both fail.
  newer :
      (junk : DevInfo) (dev : CtrlDev K) {code2 code : ℕ}
      → ublk_is_unprivileged dev.dev_info ≡ false
      → legacy_op_to_ioctl ublk_cmd_get_dev_info2 ≡ some code2
      → m.ioc_nr code2 ≡ ublk_cmd_get_dev_info2
      → (ret : ℕ) × (memory : Memory) × (dev' : CtrlDev K) × (get_info_op fuel junk
            ublk_cmd_get_dev_info2 dev
          ≡ answered ret memory dev')
        × (((is_neg ret ≡ false)
              × ((words : List ℕ) × Queries fuel junk ret dev' dev words
                  × Order code2 code ret words))
            ⊎ ((is_neg ret ≡ true)
                × (ublk_is_unprivileged dev'.dev_info ≡ false)
                × ((last_ : ℕ) (to : CtrlDev K) (words : List ℕ)
                    → Queries fuel junk last_ to dev' words
                    → Queries fuel junk last_ to dev (code2 ∷ ublk_cmd_get_dev_info2 ∷ words))))
  unfolding get_info_op
  newer junk dev {code2} {code} priv coded back =
      let own = laws.nr_of_legacy ublk_cmd_get_dev_info2 (omega arith) in
      let (ret, memory, dev1, run, asks, kept) =
        no_trans-Asks junk ublk_cmd_get_dev_info2 code2 dev back (ground arith) in
      let (ret2, memory2, dev2, run2, asks2, kept2) =
        no_trans-Asks junk ublk_cmd_get_dev_info2 ublk_cmd_get_dev_info2 dev1 own (ground arith) in
      elim (Bool-cases (is_neg ret)) [
        | inr fine ↦ (
          ret,
          memory,
          dev1,
          ground (arith, coded, run, fine),
          inl (fine, (code2 ∷ [], last code2 memory asks, at_once fine)),
        )
        | inl bad ↦
            let runs : get_info_op fuel junk ublk_cmd_get_dev_info2 dev
                ≡ answered ret2 memory2 dev2 =
              ground (arith, coded, run, bad, run2) in
            (
              ret2,
              memory2,
              dev2,
              runs,
              elim (Bool-cases (is_neg ret2)) [
                | inr fine ↦ inl (
                  fine,
                  (
                    code2 ∷ ublk_cmd_get_dev_info2 ∷ [],
                    fails code2 ret memory _ asks bad (last ublk_cmd_get_dev_info2 memory2 asks2),
                    legacy fine,
                  ),
                )
                | inl worse ↦
                    let same1 : dev1.dev_info ≡ dev.dev_info = ground (arith, kept, bad) in
                    let same2 : dev2.dev_info ≡ dev1.dev_info = ground (arith, kept2, worse) in
                    inr (
                      worse,
                      rw (same2 ∙ same1) priv,
                      λ last_ to words more.
                          fails code2 ret memory _ asks bad
                            (fails ublk_cmd_get_dev_info2 ret2 memory2 _ asks2 worse more),
                    )
              ],
            )
      ]

  -- Both encodings of GET_DEV_INFO.
  older_queries :
      (junk : DevInfo) (dev : CtrlDev K) {code2 code : ℕ}
      → ublk_is_unprivileged dev.dev_info ≡ false
      → legacy_op_to_ioctl ublk_cmd_get_dev_info ≡ some code
      → m.ioc_nr code ≡ ublk_cmd_get_dev_info
      → (ret : ℕ) × (memory : Memory) × (dev' : CtrlDev K) × (get_info_op fuel junk
            ublk_cmd_get_dev_info dev
          ≡ answered ret memory dev')
        × ((words : List ℕ) × Queries fuel junk ret dev' dev words
            × Order code2 code ret (code2 ∷ ublk_cmd_get_dev_info2 ∷ words))
  unfolding get_info_op
  older_queries junk dev {code2} {code} priv coded back =
      let own = laws.nr_of_legacy ublk_cmd_get_dev_info (omega arith) in
      let (ret, memory, dev1, run, asks, _) =
        no_trans-Asks junk ublk_cmd_get_dev_info code dev back (ground arith) in
      elim (Bool-cases (is_neg ret)) [
        | inr fine ↦ (
          ret,
          memory,
          dev1,
          ground (arith, coded, run, fine),
          (code ∷ [], last code memory asks, older (inl fine)),
        )
        | inl bad ↦ elim (Bool-cases (ublk_is_unprivileged dev1.dev_info)) [
          | inl unpriv ↦
              let no : get_info_no_trans fuel junk ublk_cmd_get_dev_info dev1
                  ≡ answered (minus einval) null_addr dev1 =
                unfold get_info_no_trans in ground (arith, own, unpriv) in
              (
                minus einval,
                null_addr,
                dev1,
                ground (arith, coded, run, bad, no),
                (code ∷ [], refused code ret memory asks bad unpriv refl, older (inr refl)),
              )
          | inr still ↦
              let (ret2, memory2, dev2, run2, asks2, _) =
                no_trans-Asks junk ublk_cmd_get_dev_info ublk_cmd_get_dev_info dev1 own
                  (ground (arith, still)) in
              (
                ret2,
                memory2,
                dev2,
                ground (arith, coded, run, bad, run2),
                (
                  code ∷ ublk_cmd_get_dev_info ∷ [],
                  fails code ret memory _ asks bad (last ublk_cmd_get_dev_info memory2 asks2),
                  oldest,
                ),
              )
        ]
      ]

  pub get_info-privileged :
      (junk : DevInfo) (dev : CtrlDev K)
      → ublk_is_unprivileged dev.dev_info ≡ false
      → (code2 : ℕ) × (code : ℕ) × (ret : ℕ) × (memory : Memory) × (dev' : CtrlDev K)
        × (words : List ℕ) × (legacy_op_to_ioctl ublk_cmd_get_dev_info2 ≡ some code2)
        × (legacy_op_to_ioctl ublk_cmd_get_dev_info ≡ some code)
        × (ublksrv_ctrl_get_info fuel junk dev ≡ answered ret memory dev')
        × (numbers dev' ≡ numbers dev ++ map m.ioc_nr words)
        × Queries fuel junk ret dev' dev words
        × Order code2 code ret words
  unfolding ublksrv_ctrl_get_info
  get_info-privileged junk dev priv =
      let (code2, coded2, back2) = ioc_nr-legacy_op_to_ioctl laws ublk_cmd_get_dev_info2 refl in
      let (code, coded, back) = ioc_nr-legacy_op_to_ioctl laws ublk_cmd_get_dev_info refl in
      let (ret, memory, dev1, run, how) = newer junk dev {code = code} priv coded2 back2 in
      elim how [
        | inl (fine, (words, queries, order)) ↦ (
          code2,
          code,
          ret,
          memory,
          dev1,
          words,
          coded2,
          coded,
          ground (arith, run, fine),
          Queries-numbers fuel junk queries,
          queries,
          order,
        )
        | inr (bad, still, before) ↦
            let (ret2, memory2, dev2, run2, (words, queries, order)) =
              older_queries junk dev1 {code2 = code2} still coded back in
            let all = before ret2 dev2 words queries in
            (
              code2,
              code,
              ret2,
              memory2,
              dev2,
              code2 ∷ ublk_cmd_get_dev_info2 ∷ words,
              coded2,
              coded,
              ground (arith, run, bad, still, run2),
              Queries-numbers fuel junk all,
              all,
              order,
            )
      ]

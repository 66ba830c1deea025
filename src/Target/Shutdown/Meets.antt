-- ===== src/Target/Shutdown/Meets.antt =====
-- A daemon ends only behind as many deletions as it has threads.
use mathlib.Core.Path.{subst}
use go_ublksrv.Base.{
  ℕ, zero, suc, ◌+◌, ◌≤◌, ◌≡◌, ◌∙◌, ◌⊎◌, true, false, refl, sym, ap, some, List, [], ◌∷◌, length,
  get_elem?, set, length-set, get_elem?-lt, arith, inl, inr,
}
use go_ublksrv.Target.Shutdown.{
  Stage, looping, notifying, exited, World, all_looping, serving, EndStep, delete, break_, meet,
  elsewhere, join, unregister, Reach, here, next,
}

abbrev is_exited : Stage → ℕ
is_exited looping = 0
is_exited notifying = 0
is_exited exited = 1

abbrev pub count_exited : List Stage → ℕ
count_exited [] = 0
count_exited (t ∷ ts) = is_exited t + count_exited ts

count_exited-set :
    (ts : List Stage) (i : ℕ) (to : Stage) {from : Stage}
    → get_elem? ts i ≡ some from
    → count_exited (set ts i to) + is_exited from ≡ count_exited ts + is_exited to
count_exited-set [] i to e = absurd (ground arith)
count_exited-set (t ∷ ts) zero to e = ground arith
count_exited-set (t ∷ ts) (suc i) to e = omega (arith, count_exited-set ts i to e)

count_exited-le : (ts : List Stage) → count_exited ts ≤ length ts
count_exited-le [] = omega arith
count_exited-le (looping ∷ ts) = omega (arith, count_exited-le ts)
count_exited-le (notifying ∷ ts) = omega (arith, count_exited-le ts)
count_exited-le (exited ∷ ts) = omega (arith, count_exited-le ts)

count_exited-looping : (n : ℕ) → count_exited (all_looping n) ≡ 0
count_exited-looping zero = refl
count_exited-looping (suc n) = omega (arith, count_exited-looping n)

length-looping : (n : ℕ) → length (all_looping n) ≡ n
length-looping zero = refl
length-looping (suc n) = ap suc (length-looping n)

-- The first `k` threads have exited.
abbrev Prefix : ℕ → List Stage → Type 0
Prefix zero ts = Unit {0}
Prefix (suc k) [] = ⊥
Prefix (suc k) (t ∷ ts) = (t ≡ exited) × Prefix k ts

Prefix-le : (k : ℕ) (ts : List Stage) → Prefix k ts → k ≤ count_exited ts
Prefix-le zero ts p = omega arith
Prefix-le (suc k) [] p = absurd p
Prefix-le (suc k) (t ∷ ts) p = ground (arith, p.0, Prefix-le k ts p.1)

Prefix-join :
    (k : ℕ) (ts : List Stage) → get_elem? ts k ≡ some exited → Prefix k ts → Prefix (suc k) ts
Prefix-join k [] e p = absurd (ground arith)
Prefix-join zero (t ∷ ts) e p = (ground arith, tt)
Prefix-join (suc k) (t ∷ ts) e p = (p.0, Prefix-join k ts e p.1)

-- A thread that moves was not exited, or is.
Prefix-set :
    (k : ℕ) (ts : List Stage) (i : ℕ) (to : Stage) {from : Stage}
    → get_elem? ts i ≡ some from
    → (is_exited from ≡ 0) ⊎ (to ≡ exited)
    → Prefix k ts
    → Prefix k (set ts i to)
Prefix-set zero ts i to e h p = tt
Prefix-set (suc k) [] i to e h p = absurd p
Prefix-set (suc k) (t ∷ ts) zero to e h p = (ground (arith, p.0), p.1)
Prefix-set (suc k) (t ∷ ts) (suc i) to e h p = (p.0, Prefix-set k ts i to e h p.1)

-- Each thread that has exited met a deletion of its own, which no longer waits.
record IsOrderly (n : ℕ) (w : World) : Type 0 where
  size : length w.threads ≡ n
  met : count_exited w.threads + w.waiting ≤ w.deletes
  in_order : Prefix w.joined w.threads
  ended : (w.registered ≡ true) ⊎ (w.joined ≡ n)

serving-IsOrderly : (n : ℕ) → IsOrderly n (serving n)
serving-IsOrderly n = record {
  size = length-looping n;
  met = omega (arith, count_exited-looping n);
  in_order = tt;
  ended = inl refl;
}

EndStep-IsOrderly : {n : ℕ} {w v : World} → EndStep w v → IsOrderly n w → IsOrderly n v
EndStep-IsOrderly {n} (delete e) o =
    subst (IsOrderly n) (sym e)
      (record { size = o.size; met = omega (arith, o.met); in_order = o.in_order; ended = o.ended })
EndStep-IsOrderly {n} {w} (break_ i at e) o = subst (IsOrderly n) (sym e) (record {
  size = length-set w.threads i notifying ∙ o.size;
  met = omega (arith, o.met, count_exited-set w.threads i notifying at);
  in_order = Prefix-set w.joined w.threads i notifying at (inl refl) o.in_order;
  ended = o.ended;
})
EndStep-IsOrderly {n} {w} (meet i left at some_ e) o = subst (IsOrderly n) (sym e) (record {
  size = length-set w.threads i exited ∙ o.size;
  met = omega (arith, o.met, some_, count_exited-set w.threads i exited at);
  in_order = Prefix-set w.joined w.threads i exited at (inr refl) o.in_order;
  ended = o.ended;
})
EndStep-IsOrderly {n} (elsewhere left some_ e) o = subst (IsOrderly n) (sym e) (record {
  size = o.size;
  met = omega (arith, o.met, some_);
  in_order = o.in_order;
  ended = o.ended;
})
EndStep-IsOrderly {n} {w} (join at e) o = subst (IsOrderly n) (sym e) (record {
  size = o.size;
  met = o.met;
  in_order = Prefix-join w.joined w.threads at o.in_order;
  ended = elim o.ended [
    | inl still ↦ inl still
    | inr all ↦ absurd (omega (arith, all, o.size, get_elem?-lt w.threads w.joined at))
  ];
})
EndStep-IsOrderly {n} (unregister all e) o =
    subst (IsOrderly n) (sym e)
      (record { size = o.size; met = o.met; in_order = o.in_order; ended = inr (all ∙ o.size) })

Reach-IsOrderly : {n : ℕ} {w v : World} → IsOrderly n w → Reach w v → IsOrderly n v
Reach-IsOrderly o here = o
Reach-IsOrderly o (next r st) = EndStep-IsOrderly st (Reach-IsOrderly o r)

-- A device is taken off the map only behind as many calls of `deleteC`, for any device, as it has
-- queues: from a device whose threads are all in their loops, each of them waits in `notifyShutdown`
-- for a call of its own, and the daemon waits for all threads. Then every thread has exited, and the
-- calls that still wait are beyond these.
pub unregister-deletes :
    (n : ℕ) {w : World}
    → Reach (serving n) w
    → w.registered ≡ false
    → (n ≤ w.deletes) × (count_exited w.threads ≡ n) × (w.waiting + n ≤ w.deletes)
unregister-deletes n {w} r gone =
    let o = Reach-IsOrderly (serving-IsOrderly n) r in
    elim o.ended [
      | inl still ↦ absurd (ground (arith, still, gone))
      | inr all ↦
          let least : n ≤ count_exited w.threads =
            rw (sym all) (Prefix-le w.joined w.threads o.in_order) in
          let most : count_exited w.threads ≤ n =
            omega (arith, count_exited-le w.threads, o.size) in
          (
            omega (arith, o.met, least),
            omega (arith, least, most),
            omega (arith, o.met, least, most),
          )
    ]

-- ===== src/Sleep/Woken.antt =====
-- The loop of `wakeup`.
use os_demand_paging.Sched.{resched_cntl, defer_stop}
use native.Mathlib.Decide.{ℕ_discrete}
use os_demand_paging.Queue.Due.{Fresh-append}
use mathlib.Core.Path.{subst, sym}
use os_demand_paging.Process.{pr_ready, Procent, nproc}
use os_demand_paging.Queue.Chain.{Fresh, Fresh-join, Fresh-split}
use os_demand_paging.Kernel.{Kernel, done}
use os_demand_paging.Queue.{Queuetab, isempty, firstkey}
use os_demand_paging.Sleep.Wakeup.{Asleep, WokeOne, wake_one}
use os_demand_paging.Sleep.{wakeup_loop, Kernel, Queuetab, wakeup, resched_cntl}
use os_demand_paging.Queue.Order.{length-IsQueue}
use os_demand_paging.Kernel.{◌>>◌, pure}
use os_demand_paging.Base.{
  length, refl, zero, suc, inl, inr, true, false, [], ◌∷◌, if◌then◌else◌, ◌++◌, ℕ, ◌≡◌, ◌<◌, ◌≢◌,
  ◌==◌, arith, ◌∙◌, List, ap, sle, sym_ne, sym, add32, Table, Bool-cases,
}

-- No delay is left for these; and some is left for the first of those.
abbrev pub AllDue : Queuetab → List ℕ → Type 0
AllDue t [] = Unit {0}
AllDue t (x ∷ xs) = (sle (t x).qkey 0 ≡ true) × AllDue t xs

abbrev pub FirstWaits : Queuetab → List ℕ → Type 0
FirstWaits t [] = Unit {0}
FirstWaits t (x ∷ xs) = sle (t x).qkey 0 ≡ false

-- The kernel `k'` after the loop in `k`, with `ss` asleep and `rs` ready before.
pub record Woken (k : Kernel) (ss rs : List ℕ) (k' : Kernel) : Type 0 where
  pub woken : List ℕ
  pub rest : List ℕ
  pub now : List ℕ
  pub parts : ss ≡ woken ++ rest
  pub due : AllDue k.queuetab woken
  pub waits : FirstWaits k.queuetab rest
  pub asleep : Asleep k' rest now
  pub lists : (k'.sleepq ≡ k.sleepq) × (k'.readylist ≡ k.readylist)
  pub joined : (x : ℕ) → Fresh x woken → Fresh x rs → Fresh x now
  pub in_now : (x : ℕ) → Fresh x now → Fresh x woken × Fresh x rs
  pub states : (x : ℕ) → ¬ Fresh x woken → (k'.proctab x).prstate ≡ pr_ready
  pub others : (x : ℕ) → Fresh x woken → k'.proctab x ≡ k.proctab x

AllDue-keep :
    (t t' : Queuetab) (x : ℕ) (ws rest : List ℕ)
    → ((c : ℕ) → c ≢ x → (t' c).qkey ≡ (t c).qkey)
    → Fresh x (ws ++ rest)
    → AllDue t' ws
    → AllDue t ws
AllDue-keep t t' x [] rest same f d = tt
AllDue-keep t t' x (w ∷ ws) rest same f d =
    (rw (← same w (sym_ne f.0)) d.0, AllDue-keep t t' x ws rest same f.1 d.1)

FirstWaits-keep :
    (t t' : Queuetab) (x : ℕ) (ws rest : List ℕ)
    → ((c : ℕ) → c ≢ x → (t' c).qkey ≡ (t c).qkey)
    → Fresh x (ws ++ rest)
    → FirstWaits t' rest
    → FirstWaits t rest
FirstWaits-keep t t' x [] [] same f d = tt
FirstWaits-keep t t' x [] (r ∷ rest) same f d = rw (← same r (sym_ne f.0)) d
FirstWaits-keep t t' x (w ∷ ws) rest same f d = FirstWaits-keep t t' x ws rest same f.1 d

-- Nothing is due.
idle-Woken :
    (k : Kernel) (ss rs : List ℕ) → FirstWaits k.queuetab ss → Asleep k ss rs → Woken k ss rs k
idle-Woken k ss rs w a = record {
  woken = [];
  rest = ss;
  now = rs;
  parts = refl;
  due = tt;
  waits = w;
  asleep = a;
  lists = (refl, refl);
  joined = λ x f g. g;
  in_now = λ x f. (tt, f);
  states = λ x n. absurd (n tt);
  others = λ x f. refl;
}

Woken-step :
    (k k1 k2 : Kernel) (x : ℕ) (ss rs : List ℕ) (one : WokeOne k x ss rs k1)
    → Fresh x ss
    → sle (k.queuetab x).qkey 0 ≡ true
    → Woken k1 ss (one.xs ++ x ∷ one.ys) k2
    → Woken k (x ∷ ss) rs k2
Woken-step k k1 k2 x ss rs one f now_due w =
    let f' : Fresh x (w.woken ++ w.rest) = subst (Fresh x) w.parts f in
    let fw = (Fresh-append x w.woken w.rest f').0 in
    let old : (z : ℕ) → z ≢ x → k1.proctab z ≡ k.proctab z =
      λ z n. ap (λ p. p z) one.entry ∙ ground arith in
    record {
      woken = x ∷ w.woken;
      rest = w.rest;
      now = w.now;
      parts = ap (λ zs. x ∷ zs) w.parts;
      due = (now_due, AllDue-keep k.queuetab k1.queuetab x w.woken w.rest one.keys f' w.due);
      waits = FirstWaits-keep k.queuetab k1.queuetab x w.woken w.rest one.keys f' w.waits;
      asleep = w.asleep;
      lists = (w.lists.0 ∙ one.lists.0, w.lists.1 ∙ one.lists.1);
      joined =
          λ z g h. w.joined z g.1 (Fresh-join z x one.xs one.ys g.0 (subst (Fresh z) one.parts h));
      in_now = λ z g.
          let (a, b) = w.in_now z g in
          let (c, d) = Fresh-split z x one.xs one.ys b in
          ((c, a), subst (Fresh z) (sym one.parts) d);
      states = λ z n. elim (ℕ_discrete z x) [
        | yes e ↦
            ap (λ y. (k2.proctab y).prstate) e
            ∙ ap (λ (q : Procent). q.prstate) (w.others x fw)
            ∙ ap (λ (q : Table Procent). (q x).prstate) one.entry
            ∙ ground arith
        | no e ↦ w.states z (λ g. n (e, g))
      ];
      others = λ z g. w.others z g.1 ∙ old z g.0;
    }

wakeup_loop-Woken :
    (fuel : ℕ) (k : Kernel) (ss rs : List ℕ)
    → Asleep k ss rs
    → length ss < fuel
    → (k' : Kernel) × (wakeup_loop fuel k ≡ done k' tt) × Woken k ss rs k'
unfolding wakeup_loop
wakeup_loop-Woken zero k ss rs a l = absurd (omega arith)
wakeup_loop-Woken (suc fuel) k [] rs a l =
    let none_left : isempty k.queuetab k.sleepq ≡ true =
      ground (arith, a.sleeping.lower, a.sleeping.upper, a.sleeping.chain.0) in
    (k, rw (none_left, wakeup_loop) refl, idle-Woken k [] rs tt a)
wakeup_loop-Woken (suc fuel) k (x ∷ ss) rs a l =
    let some_left : isempty k.queuetab k.sleepq ≡ false =
      ground (arith, a.sleeping.procs.0, a.sleeping.chain.0) in
    let head = ap (λ i. sle (k.queuetab i).qkey 0) a.sleeping.chain.0 in
    elim (Bool-cases (sle (k.queuetab x).qkey 0)) [
      | inr later ↦
          let wait : sle (firstkey k.queuetab k.sleepq) 0 ≡ false = head ∙ later in
          (k, rw (some_left, wait, wakeup_loop) refl, idle-Woken k (x ∷ ss) rs later a)
      | inl now_due ↦
          let due : sle (firstkey k.queuetab k.sleepq) 0 ≡ true = head ∙ now_due in
          let (k1, id, e, one) = wake_one k x ss rs a in
          let (k2, e2, w) =
            wakeup_loop-Woken fuel k1 ss (one.xs ++ x ∷ one.ys) one.asleep (omega arith) in
          (
            k2,
            rw (some_left, due, id, e, wakeup_loop) e2,
            Woken-step k k1 k2 x ss rs one a.sleeping.distinct.0 now_due w,
          )
    ]

-- The kernel in which rescheduling has been deferred once more.
abbrev pub deferring : Kernel → Kernel
deferring k = record k {
  ndefers = add32 k.ndefers 1;
  attempt = if k.ndefers == 0 then false else k.attempt;
}

-- `wakeup` ends its loop and makes exactly those processes ready that stand in front in the sleep
-- queue with no delay left: the sleep queue keeps the rest, whose first has a delay left, the ready list,
-- which stays sorted, holds these and those that were ready, and no other process changes. No
-- process runs until it allows rescheduling again.
pub wakeup-Woken :
    (k : Kernel) (ss rs : List ℕ)
    → Asleep (deferring k) ss rs
    → (k' : Kernel) × Woken (deferring k) ss rs k'
      × (wakeup k ≡ (do resched_cntl defer_stop; pure tt) k')
unfolding wakeup resched_cntl
wakeup-Woken k ss rs a =
    let (k', e, w) =
      wakeup_loop-Woken (suc nproc) (deferring k) ss rs a
        (omega (arith, length-IsQueue k.queuetab k.sleepq ss a.sleeping)) in
    (k', w, rw e refl)

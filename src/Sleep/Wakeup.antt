-- ===== src/Sleep/Wakeup.antt =====
-- `wakeup` makes the processes ready that are due.
use mathlib.Core.Path.{subst}
use os_demand_paging.Queue.Chain.{Fresh}
use os_demand_paging.Queue.{dequeue, queuetail, minkey}
use os_demand_paging.Queue.Order.{Sorted}
use os_demand_paging.Process.{Procent, isbadpid, pr_ready}
use os_demand_paging.Kernel.{Kernel, done}
use os_demand_paging.Sleep.Queues.{
  insert-other, dequeue-keys, Apart-sym, Sorted-same, Disjoint-move,
}
use os_demand_paging.Queue.Refine.{IsQueue, dequeue-Dequeued}
use os_demand_paging.Queue.Others.{Apart, Disjoint}
use os_demand_paging.Queue.Frame.{dequeue-other}
use os_demand_paging.Queue.Insert.{insert-Inserted}
use os_demand_paging.Sched.{ready, make_ready, resched}
use os_demand_paging.Base.{
  refl, true, false, [], ◌∷◌, ◌++◌, ℕ, ◌≡◌, ◌<◌, ◌≢◌, arith, ◌∙◌, List, ap, Table, put, ok, put_ne,
  ◌^◌, slt, sym_ne,
}

-- Live processes with a priority that may stand in the ready list.
abbrev pub AllFit : Table Procent → List ℕ → Type 0
AllFit p [] = Unit {0}
AllFit p (x ∷ xs) =
    ((isbadpid p x ≡ false) × ((p x).prprio < 2 ^ 32) × ((p x).prprio ≢ minkey)) × AllFit p xs

-- The kernel with the processes `ss` asleep and `rs` ready, while rescheduling is deferred.
pub record Asleep (k : Kernel) (ss rs : List ℕ) : Type 0 where
  pub sleeping : IsQueue k.queuetab k.sleepq ss
  pub readyq : IsQueue k.queuetab k.readylist rs
  pub apart : Apart k.sleepq ss k.readylist rs
  pub sorted : Sorted k.queuetab rs
  pub tail : (k.queuetab (queuetail k.readylist)).qkey ≡ minkey
  pub deferred : slt 0 k.ndefers ≡ true
  pub fit : AllFit k.proctab ss

abbrev pub made_ready : Kernel → ℕ → Table Procent
made_ready k x = put k.proctab x (record (k.proctab x) { prstate = pr_ready })

-- The kernel `k'` after the first sleeping process `x` is made ready in `k`.
pub record WokeOne (k : Kernel) (x : ℕ) (ss rs : List ℕ) (k' : Kernel) : Type 0 where
  pub xs : List ℕ
  pub ys : List ℕ
  pub parts : rs ≡ xs ++ ys
  pub asleep : Asleep k' ss (xs ++ x ∷ ys)
  pub entry : k'.proctab ≡ made_ready k x
  pub keys : (c : ℕ) → c ≢ x → (k'.queuetab c).qkey ≡ (k.queuetab c).qkey
  pub lists : (k'.sleepq ≡ k.sleepq) × (k'.readylist ≡ k.readylist)

AllFit-keep :
    (p : Table Procent) (x : ℕ) (e : Procent) (ss : List ℕ)
    → Fresh x ss
    → AllFit p ss
    → AllFit (put p x e) ss
AllFit-keep p x e [] f a = tt
AllFit-keep p x e (s ∷ ss) f a =
    let same : put p x e s ≡ p s = put_ne p x s e (sym_ne f.0) in
    (
      (ground (arith, a.0.0, same), ground (arith, a.0.1, same), ground (arith, a.0.2, same)),
      AllFit-keep p x e ss f.1 a.1,
    )

pub wake_one :
    (k : Kernel) (x : ℕ) (ss rs : List ℕ)
    → Asleep k (x ∷ ss) rs
    → (k' : Kernel) × ((dequeue k.queuetab k.sleepq).1 ≡ x)
      × (ready x (record k { queuetab = (dequeue k.queuetab k.sleepq).0 }) ≡ done k' ok)
      × WokeOne k x ss rs k'
unfolding ready make_ready resched
wake_one k x ss rs a =
    let t = k.queuetab in
    let t1 = (dequeue t k.sleepq).0 in
    let p = made_ready k x in
    let (t0, e, q, _, _) = dequeue-Dequeued t k.sleepq (x ∷ ss) a.sleeping in
    let et : t1 ≡ t0 = ap (λ r. r.0) e in
    let q1 : IsQueue t1 k.sleepq ss = rw et q in
    let r1 = dequeue-other t k.sleepq k.readylist (x ∷ ss) rs a.sleeping a.readyq a.apart in
    let s1 = Sorted-same t t1 rs (dequeue-keys t k.sleepq) a.sorted in
    let tail1 = dequeue-keys t k.sleepq (queuetail k.readylist) ∙ a.tail in
    let live : isbadpid k.proctab x ≡ false = a.fit.0.0 in
    let live' : isbadpid p x ≡ false = ground (arith, live) in
    let (fresh_ss, _) = a.sleeping.distinct in
    let (t2, e2, i) =
      insert-Inserted p t1 k.readylist x (k.proctab x).prprio rs r1 s1 tail1 live' a.apart.procs.0
        a.fit.0.1 a.fit.0.2 in
    let apart1 : Apart k.sleepq ss k.readylist rs = record {
      heads = a.apart.heads;
      tails = a.apart.tails;
      crossed = a.apart.crossed;
      procs = a.apart.procs.1;
    } in
    let other =
      insert-other p t1 k.readylist k.sleepq x (k.proctab x).prprio rs ss r1 q1
        (Apart-sym k.sleepq k.readylist ss rs apart1) tail1 live' fresh_ss a.fit.0.1 a.fit.0.2 in
    let k' : Kernel = record k { proctab = p; queuetab = t2; attempt = true } in
    let keys : (c : ℕ) → c ≢ x → (t2 c).qkey ≡ (t c).qkey =
      λ c h. i.keys c h ∙ dequeue-keys t k.sleepq c in
    (
      k',
      ap (λ r. r.1) e,
      rw (live, e2, a.deferred) refl,
      record {
        xs = i.xs;
        ys = i.ys;
        parts = i.place.parts;
        asleep = record {
          sleeping = subst (λ r. IsQueue r k.sleepq ss) (ap (λ r. r.0) e2) other;
          readyq = i.queue;
          apart = record {
            heads = a.apart.heads;
            tails = a.apart.tails;
            crossed = a.apart.crossed;
            procs =
                Disjoint-move x ss i.xs i.ys fresh_ss
                  (subst (Disjoint ss) i.place.parts a.apart.procs.1);
          };
          sorted = i.sorted;
          tail =
              keys (queuetail k.readylist) (omega (arith, a.readyq.lower, a.sleeping.procs.0))
              ∙ a.tail;
          deferred = a.deferred;
          fit =
              AllFit-keep k.proctab x (record (k.proctab x) { prstate = pr_ready }) ss fresh_ss
                a.fit.1;
        };
        entry = refl;
        keys = keys;
        lists = (refl, refl);
      },
    )

-- ===== src/Sched/Dispatch.antt =====
-- What `resched` does with the processor.
use mathlib.Core.Path.{subst}
use os_demand_paging.Queue.Insert.{Sorted-tail}
use os_demand_paging.Queue.Insert.{insert-Inserted}
use os_demand_paging.Sched.{quantum, dispatch, give_up, resched}
use os_demand_paging.Queue.Chain.{head_of, Fresh}
use os_demand_paging.Process.{isbadpid, pr_curr, pr_ready, state_eq}
use os_demand_paging.Queue.Order.{Place, Sorted, AtLeast, FirstBelow, Inserted}
use os_demand_paging.Queue.Refine.{IsQueue, dequeue-Dequeued}
use os_demand_paging.Queue.{Queuetab, dequeue, getfirst, getitem, queuetail, minkey, firstkey}
use os_demand_paging.Kernel.{Kernel, switch, done}
use os_demand_paging.Base.{
  inl, inr, refl, [], ◌∷◌, List, ℕ, ◌≡◌, arith, sle, ◌++◌, true, ap, false, ◌+◌, sym, ◌<◌, ◌^◌, ◌≢◌,
  slt, put, ne→==, sym_ne, ◌∙◌, ◌⊎◌, Bool-cases,
}

-- The current process, and a ready list that begins with `x`.
pub record Eligible (k : Kernel) (x : ℕ) (ps : List ℕ) : Type 0 where
  pub queue : IsQueue k.queuetab k.readylist (x ∷ ps)
  pub tail : (k.queuetab (queuetail k.readylist)).qkey ≡ minkey
  pub sorted : Sorted k.queuetab (x ∷ ps)
  pub live : isbadpid k.proctab k.currpid ≡ false
  pub running : (k.proctab k.currpid).prstate ≡ pr_curr
  pub away : Fresh k.currpid (x ∷ ps)
  pub prio_lt : (k.proctab k.currpid).prprio < 2 ^ 32
  pub prio_above : (k.proctab k.currpid).prprio ≢ minkey
  pub undeferred : slt 0 k.ndefers ≡ false

-- The processor has gone from the current process to `x`.
pub record Switched (k : Kernel) (x : ℕ) (ps : List ℕ) (k' : Kernel) : Type 0 where
  pub xs : List ℕ
  pub ys : List ℕ
  pub parts : ps ≡ xs ++ ys
  pub before : AtLeast k.queuetab (k.proctab k.currpid).prprio xs
  pub behind : FirstBelow k.queuetab (k.proctab k.currpid).prprio ys
  pub current : k'.currpid ≡ x
  pub queue : IsQueue k'.queuetab k.readylist (xs ++ k.currpid ∷ ys)
  pub sorted : Sorted k'.queuetab (xs ++ k.currpid ∷ ys)
  pub new_state : (k'.proctab x).prstate ≡ pr_curr
  pub old_state : (k'.proctab k.currpid).prstate ≡ pr_ready
  pub space : k'.cr3 ≡ (k.proctab x).pdbr
  pub slice : k'.preempt ≡ quantum

abbrev tail_of : List ℕ → List ℕ
tail_of [] = []
tail_of (x ∷ xs) = xs

-- A process whose key is not larger than the first one's is not put in front.
not_first :
    (t : Queuetab) (key x : ℕ) (ps xs ys : List ℕ)
    → Place t key (x ∷ ps) xs ys
    → sle key (t x).qkey ≡ true
    → (zs : List ℕ) × (xs ≡ x ∷ zs) × (ps ≡ zs ++ ys)
not_first t key x ps [] [] p h = absurd (omega (arith, ap (λ l. head_of l (x + 1)) p.parts))
not_first t key x ps [] (y ∷ ys) p h =
    let same : x ≡ y = ap (λ l. head_of l 0) p.parts in absurd (ground (arith, p.behind, h, same))
not_first t key x ps (z ∷ xs) ys p h =
    let same : x ≡ z = ap (λ l. head_of l 0) p.parts in
    (xs, ap (λ w. w ∷ xs) (sym same), ap tail_of p.parts)

Sorted-same :
    (t t' : Queuetab) (xs : List ℕ)
    → ((c : ℕ) → (t' c).qkey ≡ (t c).qkey)
    → Sorted t xs
    → Sorted t' xs
Sorted-same t t' [] same s = tt
Sorted-same t t' (x ∷ []) same s = tt
Sorted-same t t' (x ∷ y ∷ ys) same s = (rw (same x, same y) s.0, Sorted-same t t' (y ∷ ys) same s.1)

dequeue-keys : (t : Queuetab) (q c : ℕ) → ((dequeue t q).0 c).qkey ≡ (t c).qkey
unfolding dequeue getfirst getitem
dequeue-keys t q c = ground arith

-- The ready list after the process has given up the processor.
give_up-Inserted :
    (k : Kernel) (x : ℕ) (ps : List ℕ)
    → Eligible k x ps
    → (t : Queuetab) × ((give_up k).queuetab ≡ t)
      × Inserted k.queuetab k.readylist k.currpid (k.proctab k.currpid).prprio (x ∷ ps) t
unfolding give_up
give_up-Inserted k x ps e =
    let p = put k.proctab k.currpid (record (k.proctab k.currpid) { prstate = pr_ready }) in
    let live : isbadpid p k.currpid ≡ false = ground (arith, e.live) in
    let (t, eq, ins) =
      insert-Inserted p k.queuetab k.readylist k.currpid (k.proctab k.currpid).prprio (x ∷ ps)
        e.queue e.sorted e.tail live e.away e.prio_lt e.prio_above in
    (t, rw eq refl, ins)

-- The switch, from a ready list that begins with `x`.
dispatch-first :
    (k : Kernel) (x : ℕ) (qs : List ℕ)
    → IsQueue k.queuetab k.readylist (x ∷ qs)
    → Sorted k.queuetab qs
    → x ≢ k.currpid
    → (k' : Kernel) × (dispatch k ≡ switch k' (λ k''. done k'' tt))
      × (k'.currpid ≡ x)
      × IsQueue k'.queuetab k.readylist qs
      × Sorted k'.queuetab qs
      × (k'.proctab ≡ put k.proctab x (record (k.proctab x) { prstate = pr_curr }))
      × (k'.cr3 ≡ (k.proctab x).pdbr)
      × (k'.preempt ≡ quantum)
unfolding dispatch
dispatch-first k x qs h s other =
    let (t, e, rest, _, _) = dequeue-Dequeued k.queuetab k.readylist (x ∷ qs) h in
    (
      record k {
        queuetab = t;
        currpid = x;
        proctab = put k.proctab x (record (k.proctab x) { prstate = pr_curr });
        preempt = quantum;
        cr3 = (k.proctab x).pdbr;
      },
      rw (e, ne→== x k.currpid other),
      refl,
      rest,
      Sorted-same k.queuetab t qs
          (λ c. rw (← ap (λ r. (r.0 c).qkey) e) (dequeue-keys k.queuetab k.readylist c)) s,
      refl,
      refl,
      refl,
    )

-- The old process goes back to the ready list, the first one comes to run.
give_up-Switched :
    (k : Kernel) (x : ℕ) (ps : List ℕ)
    → Eligible k x ps
    → sle (k.proctab k.currpid).prprio (k.queuetab x).qkey ≡ true
    → (k' : Kernel) × (dispatch (give_up k) ≡ switch k' (λ k''. done k'' tt)) × Switched k x ps k'
unfolding give_up
give_up-Switched k x ps e below =
    let (t, eq, ins) = give_up-Inserted k x ps e in
    let key = (k.proctab k.currpid).prprio in
    let (zs, shape, parts) = not_first k.queuetab key x ps ins.xs ins.ys ins.place below in
    let queue = subst (λ l. IsQueue t k.readylist (l ++ k.currpid ∷ ins.ys)) shape ins.queue in
    let sorted = subst (λ l. Sorted t (l ++ k.currpid ∷ ins.ys)) shape ins.sorted in
    let (k', sw, current, rest, sorted', procs, space, slice) =
      dispatch-first (give_up k) x (zs ++ k.currpid ∷ ins.ys) (rw eq queue)
        (rw eq (Sorted-tail t x (zs ++ k.currpid ∷ ins.ys) sorted)) (sym_ne e.away.0) in
    (
      k',
      sw,
      record {
        xs = zs;
        ys = ins.ys;
        parts = parts;
        before = (subst (AtLeast k.queuetab key) shape ins.place.before).1;
        behind = ins.place.behind;
        current = current;
        queue = rest;
        sorted = sorted';
        new_state = rw procs (ground arith);
        old_state = rw procs (ground (arith, e.away.0));
        space = space ∙ ground (arith, e.away.0);
        slice = slice;
      },
    )

-- In a kernel that does not defer, with a sorted ready list that begins with `x`, `resched` of a
-- current process that stays eligible returns at once if its priority is above the key of `x`.
-- Otherwise it switches to `x`, which then runs with a new time slice under its own page directory;
-- the old process is ready, behind all processes of the ready list with its priority or a higher one
-- and in front of those with a lower one, and the ready list stays sorted.
pub resched-Switched :
    (k : Kernel) (x : ℕ) (ps : List ℕ)
    → Eligible k x ps
    → ((slt (k.queuetab x).qkey (k.proctab k.currpid).prprio ≡ true) × (resched k ≡ done k tt))
      ⊎ ((slt (k.queuetab x).qkey (k.proctab k.currpid).prprio ≡ false)
          × (k' : Kernel) × (resched k ≡ switch k' (λ k''. done k'' tt))
          × Switched k x ps k')
unfolding resched
resched-Switched k x ps e =
    let curr : state_eq (k.proctab k.currpid).prstate pr_curr ≡ true = rw e.running refl in
    let first : firstkey k.queuetab k.readylist ≡ (k.queuetab x).qkey =
      ap (λ i. (k.queuetab i).qkey) e.queue.chain.0 in
    elim (Bool-cases (slt (k.queuetab x).qkey (k.proctab k.currpid).prprio)) [
      | inl above ↦ inl (above, rw (e.undeferred, curr, first, above) refl)
      | inr below ↦
          let (k', eq, sw) = give_up-Switched k x ps e (ground (arith, below)) in
          inr (below, k', rw (e.undeferred, curr, first, below) eq, sw)
    ]

-- ===== src/Startup/Queues.antt =====
-- The queues after `init_queues`: one for each semaphore, the ready list and the delta list.
use os_demand_paging.Startup.{init_sem, init_queues}
use os_demand_paging.Process.{nproc, nsem}
use os_demand_paging.Queue.{Queuetab, newqueue, nqent, queuetail, minkey}
use os_demand_paging.Queue.Refine.{IsQueue}
use os_demand_paging.Queue.Others.{newqueue-IsQueue}
use os_demand_paging.Kernel.{Kernel, Sentry}
use native.Mathlib.Decide.{ℕ_discrete}
use os_demand_paging.Base.{
  ℕ, ◌+◌, ◌*◌, ◌≤◌, ◌<◌, ◌≡◌, ◌≢◌, refl, [], false, arith, for_range, put_self, put_ne,
  for_range_inv, ◌∙◌,
}

-- An empty queue that `insert` can use: the walk along it ends at the tail's key.
pub record IsEmptyQueue (t : Queuetab) (q : ℕ) : Type 0 where
  pub queue : IsQueue t q []
  pub tail : (t (queuetail q)).qkey ≡ minkey

-- The table after one more `newqueue`.
record Added (t t' : Queuetab) (next : ℕ) : Type 0 where
  made : IsEmptyQueue t' next
  kept : (q : ℕ) → q + 1 < next → IsEmptyQueue t q → IsEmptyQueue t' q

keep_empty :
    (t t' : Queuetab) (next q : ℕ)
    → ((c : ℕ) → c ≢ next → c ≢ queuetail next → t' c ≡ t c)
    → q + 1 < next
    → IsEmptyQueue t q
    → IsEmptyQueue t' q
keep_empty t t' next q same lt e =
    let head : t' q ≡ t q = same q (omega arith) (omega arith) in
    let last : t' (queuetail q) ≡ t (queuetail q) =
      same (queuetail q) (omega arith) (omega arith) in
    record {
      queue = record {
        lower = e.queue.lower;
        upper = e.queue.upper;
        procs = e.queue.procs;
        distinct = e.queue.distinct;
        chain = (rw head e.queue.chain.0, rw last e.queue.chain.1);
      };
      tail = rw last e.tail;
    }

newqueue-Added :
    (t : Queuetab) (next : ℕ)
    → nproc ≤ next
    → next + 1 < nqent
    → (t' : Queuetab) × (newqueue t next ≡ (t', next + 2, next)) × Added t t' next
newqueue-Added t next lo hi =
    let (t', result, queue, tail, same) = newqueue-IsQueue t next lo hi in
    (
      t',
      result,
      record {
        made = record { queue = queue; tail = tail };
        kept = λ q lt e. keep_empty t t' next q same lt e;
      },
    )

-- The entry of a semaphore at the start.
abbrev pub unused : ℕ → Sentry
unused q = record { used = false; scount = 0; squeue = q }

-- The semaphores below `i` have their queues.
record SemsReady (i : ℕ) (s : Kernel × ℕ) : Type 0 where
  next : s.1 ≡ nproc + 2 * i
  sems :
      (j : ℕ)
      → j < i
      → (s.0.semtab j ≡ unused (nproc + 2 * j)) × IsEmptyQueue s.0.queuetab (nproc + 2 * j)

init_sem-SemsReady :
    (i : ℕ) (s : Kernel × ℕ) → i < nsem → SemsReady i s → SemsReady (i + 1) (init_sem i s)
unfolding init_sem
init_sem-SemsReady i s lt h =
    let (t', result, added) =
      newqueue-Added s.0.queuetab (nproc + 2 * i) (omega arith) (omega arith) in
    rw (h.next, result)
      (record {
        next = omega arith;
        sems = λ j below. elim (ℕ_discrete j i) [
          | yes same ↦ rw same (put_self s.0.semtab i (unused (nproc + 2 * i)), added.made)
          | no other ↦
              (let old = h.sems j (omega arith) in
                (
                  put_ne s.0.semtab i j (unused (nproc + 2 * i)) other ∙ old.0,
                  added.kept (nproc + 2 * j) (omega arith) old.1,
                ))
        ];
      })

sems-SemsReady : (k : Kernel) → SemsReady nsem (for_range nsem 0 init_sem (k, nproc))
sems-SemsReady k =
    for_range_inv SemsReady init_sem 0 nsem (λ i s _ lt h. init_sem-SemsReady i s lt h) nsem 0 nsem
      (k, nproc) (omega arith) refl (omega arith)
      (record { next = refl; sems = λ j lt. absurd (omega arith) })

-- `init_queues`, from the first queue id, gives each semaphore below `nsem` an unused entry with a
-- queue of its own, and makes the last two queues of the table the ready list and the delta list:
-- the ids differ, every queue is empty, and its tail has the least key. No id is left.
pub init_queues_lem :
    (k : Kernel) (i : ℕ)
    → i < nsem
    → ((init_queues (k, nproc)).0.semtab i ≡ unused (nproc + 2 * i))
      × IsEmptyQueue (init_queues (k, nproc)).0.queuetab (nproc + 2 * i)
      × ((init_queues (k, nproc)).0.readylist ≡ nproc + 2 * nsem)
      × IsEmptyQueue (init_queues (k, nproc)).0.queuetab (nproc + 2 * nsem)
      × ((init_queues (k, nproc)).0.sleepq ≡ nproc + 2 * nsem + 2)
      × IsEmptyQueue (init_queues (k, nproc)).0.queuetab (nproc + 2 * nsem + 2)
      × ((init_queues (k, nproc)).1 ≡ nqent)
unfolding init_queues
init_queues_lem k i lt =
    let h = sems-SemsReady k in
    let s = for_range nsem 0 init_sem (k, nproc) in
    let (t, ready, first) =
      newqueue-Added s.0.queuetab (nproc + 2 * nsem) (omega arith) (omega arith) in
    let (t', sleep, second) = newqueue-Added t (nproc + 2 * nsem + 2) (omega arith) (omega arith) in
    let sem = h.sems i lt in
    rw (h.next, ready, sleep)
      (
        sem.0,
        second.kept _ (omega arith) (first.kept _ (omega arith) sem.1),
        refl,
        second.kept _ (omega arith) first.made,
        refl,
        second.made,
        refl,
      )

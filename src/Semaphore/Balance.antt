-- ===== src/Semaphore/Balance.antt =====
-- The count of a semaphore against its queue.
use os_demand_paging.Queue.Order.{length-IsQueue}
use os_demand_paging.Sched.{resched}
use native.Mathlib.Decide.{ℕ_discrete}
use os_demand_paging.Queue.Chain.{Fresh}
use os_demand_paging.Queue.Refine.{IsQueue, enqueue-IsQueue}
use os_demand_paging.Process.{isbadpid, nproc, pr_wait}
use os_demand_paging.Semaphore.{wait, is_open, resched, block_on, set_sem}
use os_demand_paging.Kernel.{Kernel, Sentry, done, ◌>>◌, pure}
use os_demand_paging.Base.{
  length, refl, inl, inr, [], ◌∷◌, List, ℕ, ◌++◌, ◌≡◌, ◌≤◌, false, true, ◌+◌, ◌<◌, slt, ◌^◌, sub32,
  ◌⊎◌, ok, arith, ==_refl, put, Table,
}

-- The count is the number of signals that are left if no process waits, and minus the number of
-- waiting processes otherwise.
abbrev pub Balanced : ℕ → List ℕ → Type 0
Balanced scount ps =
    ((length ps ≡ 0) × (scount < 2 ^ 31)) ⊎ ((0 < length ps) × (scount + length ps ≡ 2 ^ 32))

-- An open semaphore with the processes `ps` in its queue.
pub record IsSem (k : Kernel) (sem : ℕ) (ps : List ℕ) : Type 0 where
  pub opened : is_open k sem ≡ true
  pub queue : IsQueue k.queuetab (k.semtab sem).squeue ps
  pub balance : Balanced (k.semtab sem).scount ps

length-snoc : (ps : List ℕ) (x : ℕ) → length (ps ++ x ∷ []) ≡ length ps + 1
length-snoc [] x = refl
length-snoc (y ∷ ps) x = omega (arith, length-snoc ps x)

-- The two outcomes of a count that goes down.
count_down :
    (scount : ℕ) (ps : List ℕ) (x : ℕ)
    → length ps ≤ nproc
    → Balanced scount ps
    → ((slt (sub32 scount 1) 0 ≡ false) × (slt 0 scount ≡ true) × Balanced (sub32 scount 1) ps)
      ⊎ ((slt (sub32 scount 1) 0 ≡ true)
          × (slt 0 scount ≡ false)
          × Balanced (sub32 scount 1) (ps ++ x ∷ []))
count_down scount ps x le (inl (none, lt)) = elim (ℕ_discrete scount 0) [
  | yes zero_count ↦ inr (
    ground arith,
    ground arith,
    inr (omega (arith, length-snoc ps x), omega (arith, length-snoc ps x)),
  )
  | no more ↦ inl (ground arith, ground arith, inl (none, omega arith))
]
count_down scount ps x le (inr (some_wait, e)) = inr (
  ground arith,
  ground arith,
  inr (omega (arith, length-snoc ps x), omega (arith, length-snoc ps x)),
)

-- The table of semaphores with another count for one of them.
abbrev pub counted : Kernel → ℕ → ℕ → Table Sentry
counted k sem n = put k.semtab sem (record (k.semtab sem) { scount = n })

-- The semaphore after its count has changed.
pub counted-IsSem :
    (k : Kernel) (sem n : ℕ) (ps : List ℕ)
    → is_open k sem ≡ true
    → IsQueue k.queuetab (k.semtab sem).squeue ps
    → Balanced n ps
    → IsSem (set_sem sem (λ s. record s { scount = n }) k) sem ps
counted-IsSem k sem n ps opened queue balance = record {
  opened = rw (==_refl sem) opened;
  queue = rw (==_refl sem) queue;
  balance = rw (==_refl sem) balance;
}

-- The process blocks, on a semaphore that has been counted down.
block_on-IsSem :
    (k : Kernel) (sem : ℕ) (ps : List ℕ)
    → is_open k sem ≡ true
    → IsQueue k.queuetab (k.semtab sem).squeue ps
    → Balanced (k.semtab sem).scount (ps ++ k.currpid ∷ [])
    → isbadpid k.proctab k.currpid ≡ false
    → Fresh k.currpid ps
    → IsSem (block_on sem k) sem (ps ++ k.currpid ∷ [])
      × (((block_on sem k).proctab k.currpid).prstate ≡ pr_wait)
      × (((block_on sem k).proctab k.currpid).prsem ≡ sem)
unfolding block_on
block_on-IsSem k sem ps opened queue balance live away =
    let p =
      put k.proctab k.currpid (record (k.proctab k.currpid) { prstate = pr_wait; prsem = sem }) in
    let live' : isbadpid p k.currpid ≡ false = ground (arith, live) in
    let (t, e, q) =
      enqueue-IsQueue p k.queuetab (k.semtab sem).squeue k.currpid ps queue live' away in
    (record { opened = opened; queue = rw e q; balance = balance }, ground arith, ground arith)

-- `wait` on an open semaphore of a live process that is not in its queue either returns at once, and
-- then the count was positive, or puts the process, which then waits for the semaphore, at the end of
-- the queue and gives up the processor, and then the count was zero or negative. In both cases the
-- count goes down by one, no other semaphore changes, and the count is balanced with the queue.
pub wait-IsSem :
    (k : Kernel) (sem : ℕ) (ps : List ℕ)
    → IsSem k sem ps
    → isbadpid k.proctab k.currpid ≡ false
    → Fresh k.currpid ps
    → ((k' : Kernel) × (wait sem k ≡ done k' ok)
        × IsSem k' sem ps
        × (slt 0 (k.semtab sem).scount ≡ true)
        × (k'.semtab ≡ counted k sem (sub32 (k.semtab sem).scount 1))
        × (k'.queuetab ≡ k.queuetab)
        × (k'.proctab ≡ k.proctab))
      ⊎ ((k' : Kernel) × (wait sem k ≡ (resched >> pure ok) k')
          × IsSem k' sem (ps ++ k.currpid ∷ [])
          × (slt 0 (k.semtab sem).scount ≡ false)
          × (k'.semtab ≡ counted k sem (sub32 (k.semtab sem).scount 1))
          × ((k'.proctab k.currpid).prstate ≡ pr_wait)
          × ((k'.proctab k.currpid).prsem ≡ sem))
unfolding wait
wait-IsSem k sem ps s live away =
    let le = length-IsQueue k.queuetab (k.semtab sem).squeue ps s.queue in
    let n = sub32 (k.semtab sem).scount 1 in
    let k' = set_sem sem (λ s. record s { scount = n }) k in
    elim (count_down (k.semtab sem).scount ps k.currpid le s.balance) [
      | inl (stays, pos, balance) ↦ inl (
        k',
        rw (s.opened, ==_refl sem, stays) refl,
        counted-IsSem k sem n ps s.opened s.queue balance,
        pos,
        refl,
        refl,
        refl,
      )
      | inr (blocks, none_left, balance) ↦
          let (sem', state, on) =
            block_on-IsSem k' sem ps (rw (==_refl sem) s.opened) (rw (==_refl sem) s.queue)
              (rw (==_refl sem) balance) live away in
          inr (
            block_on sem k',
            rw (s.opened, ==_refl sem, blocks) refl,
            sem',
            none_left,
            unfold block_on in refl,
            state,
            on,
          )
    ]

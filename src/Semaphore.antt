-- ===== src/Semaphore.antt =====
-- Semaphores: include/semaphore.h, system/semcreate.c, semdelete.c, semreset.c, semcount.c,
-- wait.c, signal.c, signaln.c. The state of an entry is a Boolean, `used`. A count is a signed
-- 32-bit pattern.
pub mod Balance
pub mod Release
use os_demand_paging.Base.{
  ℕ, zero, suc, Bool, true, false, not, ◌&&◌, ◌||◌, put, add32, sub32, slt, sle, syserr, ok, ◌==◌,
  if◌then◌else◌, ◌^◌, ◌-◌,
}
use os_demand_paging.Process.{nproc, nsem, pr_wait}
use os_demand_paging.Queue.{enqueue, dequeue, getfirst, empty}
use os_demand_paging.Kernel.{Sentry, Kernel, done, Code, pure, ◌>>◌, modify, set_proc}
use os_demand_paging.Sched.{resched, resched_cntl, defer_start, defer_stop, ready}

abbrev pub isbadsem : ℕ → Bool
isbadsem s = slt s 0 || sle nsem s

-- A semaphore that may be used.
abbrev pub is_open : Kernel → ℕ → Bool
is_open k sem = not (isbadsem sem) && (k.semtab sem).used

abbrev pub set_sem : ℕ → (Sentry → Sentry) → Kernel → Kernel
set_sem sem f k = record k { semtab = put k.semtab sem (f (k.semtab sem)) }

-- The search of `newsem`, from `nextsem` on and round the table.
unfoldable pub newsem_loop : ℕ → Kernel → Kernel × ℕ
newsem_loop zero k = (k, syserr)
newsem_loop (suc n) k =
    let sem = k.nextsem in
    let next = if sle nsem (add32 sem 1) then 0 else add32 sem 1 in
    let k' : Kernel = record k { nextsem = next } in
    let rest = newsem_loop n k' in
    if not (k'.semtab sem).used then (set_sem sem (λ s. record s { used = true }) k', sem) else rest

unfoldable pub newsem : Kernel → Kernel × ℕ
newsem k = newsem_loop nsem k

unfoldable pub semcreate : ℕ → Code ℕ
semcreate count k =
    if slt count 0
    then done k syserr
    else (let (k', sem) = newsem k in
        if sem == syserr
        then done k' syserr
        else done (set_sem sem (λ s. record s { scount = count }) k') sem)

unfoldable pub semcount : ℕ → Code ℕ
semcount sem k = if not (is_open k sem) then done k syserr else done k (k.semtab sem).scount

-- The process blocks on the semaphore.
unfoldable pub block_on : ℕ → Kernel → Kernel
block_on sem k =
    let k' = set_proc k.currpid (λ p. record p { prstate = pr_wait; prsem = sem }) k in
    record k' { queuetab = (enqueue k'.proctab k'.queuetab k'.currpid (k'.semtab sem).squeue).0 }

unfoldable pub wait : ℕ → Code ℕ
wait sem k =
    if not (is_open k sem)
    then done k syserr
    else (let k' = set_sem sem (λ s. record s { scount = sub32 s.scount 1 }) k in
        if slt (k'.semtab sem).scount 0
        then (do modify (block_on sem); resched; pure ok) k'
        else done k' ok)

-- `if ((semptr->scount++) < 0) ready(dequeue(semptr->squeue));`
unfoldable pub release_one : ℕ → Code (Unit {0})
release_one sem k =
    let k' = set_sem sem (λ s. record s { scount = add32 s.scount 1 }) k in
    if slt (k.semtab sem).scount 0
    then (let (t, pid) = dequeue k'.queuetab (k'.semtab sem).squeue in
        (ready pid >> pure tt) (record k' { queuetab = t }))
    else done k' tt

unfoldable pub signal : ℕ → Code ℕ
signal sem k = if not (is_open k sem) then done k syserr else (do release_one sem; pure ok) k

unfoldable pub signal_loop : ℕ → ℕ → Code (Unit {0})
signal_loop sem zero = pure tt
signal_loop sem (suc n) = release_one sem >> signal_loop sem n

unfoldable pub signaln : ℕ → ℕ → Code ℕ
signaln sem count k =
    if isbadsem sem || slt count 0
    then done k syserr
    else (if not (k.semtab sem).used
        then done k syserr
        else (do resched_cntl defer_start; signal_loop sem count; resched_cntl defer_stop; pure ok)
            k)

-- `while (semptr->scount++ < 0) ready(getfirst(semptr->squeue));` The count is at least -2^31.
unfoldable pub free_waiters : ℕ → ℕ → Code (Unit {0})
free_waiters sem zero k = done k tt
free_waiters sem (suc fuel) k =
    let k' = set_sem sem (λ s. record s { scount = add32 s.scount 1 }) k in
    elim (slt (k.semtab sem).scount 0) [
      | true ↦
          let (t, pid) = getfirst k'.queuetab (k'.semtab sem).squeue in
          (ready pid >> free_waiters sem fuel) (record k' { queuetab = t })
      | false ↦ done k' tt
    ]

-- A count below zero is reached after as many rounds as its distance to zero, and one more round
-- ends the loop.
abbrev pub rounds : ℕ → ℕ
rounds scount = suc (if slt scount 0 then 2 ^ 32 - scount else 0)

unfoldable pub semdelete : ℕ → Code ℕ
semdelete sem k =
    if isbadsem sem
    then done k syserr
    else (if not (k.semtab sem).used
        then done k syserr
        else (do
          modify (set_sem sem (λ s. record s { used = false }))
          resched_cntl defer_start
          free_waiters sem (rounds (k.semtab sem).scount)
          resched_cntl defer_stop
          pure ok)
            k)

-- `while ((pid = getfirst(semqueue)) != EMPTY) ready(pid);` A queue has at most `nproc` processes.
unfoldable pub free_queue : ℕ → ℕ → Code (Unit {0})
free_queue q zero k = done k tt
free_queue q (suc fuel) k =
    let (t, pid) = getfirst k.queuetab q in
    elim (pid == empty) [
      | true ↦ done (record k { queuetab = t }) tt
      | false ↦ (ready pid >> free_queue q fuel) (record k { queuetab = t })
    ]

unfoldable pub semreset : ℕ → ℕ → Code ℕ
semreset sem count k =
    if slt count 0 || isbadsem sem || not (k.semtab sem).used
    then done k syserr
    else (do
      resched_cntl defer_start
      free_queue (k.semtab sem).squeue (suc nproc)
      modify (set_sem sem (λ s. record s { scount = count }))
      resched_cntl defer_stop
      pure ok)
        k

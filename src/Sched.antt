-- ===== src/Sched.antt =====
-- The scheduler: system/resched.c, ready.c, resume.c, suspend.c, yield.c, chprio.c, getprio.c,
-- getpid.c.
pub mod Dispatch
use os_demand_paging.Base.{
  ℕ, true, false, not, ◌&&◌, ◌||◌, put, add32, sub32, slt, sle, syserr, ok, ◌==◌, if◌then◌else◌,
}
use os_demand_paging.Process.{nullproc, pr_curr, pr_ready, pr_susp, state_eq, isbadpid}
use os_demand_paging.Queue.{firstkey, dequeue, insert, getitem}
use os_demand_paging.Kernel.{Kernel, done, switch, Code, pure, ◌>>=◌, ◌>>◌, get, modify, set_proc}

abbrev pub quantum : ℕ
quantum = 2

-- The context switch to the first ready process. `ctxsw` comes back at once if that is the
-- process that calls it.
unfoldable pub dispatch : Code (Unit {0})
dispatch k =
    let (t, pid) = dequeue k.queuetab k.readylist in
    let k' : Kernel = record k {
      queuetab = t;
      currpid = pid;
      proctab = put k.proctab pid (record (k.proctab pid) { prstate = pr_curr });
      preempt = quantum;
      cr3 = (k.proctab pid).pdbr;
    } in
    if pid == k.currpid then done k' tt else switch k' (λ k''. done k'' tt)

-- The process stays eligible: it goes back to the ready list.
unfoldable pub give_up : Kernel → Kernel
give_up k =
    let old = k.proctab k.currpid in
    let p = put k.proctab k.currpid (record old { prstate = pr_ready }) in
    record k { proctab = p; queuetab = (insert p k.queuetab k.currpid k.readylist old.prprio).0 }

unfoldable pub resched : Code (Unit {0})
resched k =
    if slt 0 k.ndefers
    then done (record k { attempt = true }) tt
    else (if state_eq (k.proctab k.currpid).prstate pr_curr
        then (if slt (firstkey k.queuetab k.readylist) (k.proctab k.currpid).prprio
            then done k tt
            else dispatch (give_up k))
        else dispatch k)

-- The argument of `resched_cntl`
pub data Defer : Type 0 where
  defer_start defer_stop : Defer

-- The last branch of the function is for any other argument.
unfoldable pub resched_cntl : Defer → Code ℕ
resched_cntl defer_start k =
    done
      (record k {
        ndefers = add32 k.ndefers 1;
        attempt = if k.ndefers == 0 then false else k.attempt;
      })
      ok
resched_cntl defer_stop k =
    if sle k.ndefers 0
    then done k syserr
    else (let k' = record k { ndefers = sub32 k.ndefers 1 } in
        if k'.ndefers == 0 && k'.attempt then (resched >> pure ok) k' else done k' ok)

-- `prptr->prstate = PR_READY; insert(pid, readylist, prptr->prprio);`
unfoldable pub make_ready : ℕ → Kernel → Kernel
make_ready pid k =
    let p = put k.proctab pid (record (k.proctab pid) { prstate = pr_ready }) in
    record k {
      proctab = p;
      queuetab = (insert p k.queuetab pid k.readylist (k.proctab pid).prprio).0;
    }

unfoldable pub ready : ℕ → Code ℕ
ready pid k =
    if isbadpid k.proctab pid
    then done k syserr
    else (do modify (make_ready pid); resched; pure ok) k

unfoldable pub resume : ℕ → Code ℕ
resume pid k =
    if isbadpid k.proctab pid
    then done k syserr
    else (if not (state_eq (k.proctab pid).prstate pr_susp)
        then done k syserr
        else (do ready pid; pure (k.proctab pid).prprio) k)

abbrev pub set_susp : ℕ → Kernel → Kernel
set_susp pid = set_proc pid (λ p. record p { prstate = pr_susp })

-- The process leaves the ready list, or the processor.
unfoldable pub take_off : ℕ → Code (Unit {0})
take_off pid k =
    if state_eq (k.proctab pid).prstate pr_ready
    then done (set_susp pid (record k { queuetab = (getitem k.queuetab pid).0 })) tt
    else resched (set_susp pid k)

-- `prio` is read after the process runs again.
unfoldable pub suspend : ℕ → Code ℕ
suspend pid k =
    if isbadpid k.proctab pid || pid == nullproc
    then done k syserr
    else (let state = (k.proctab pid).prstate in
        if not (state_eq state pr_curr) && not (state_eq state pr_ready)
        then done k syserr
        else (do take_off pid; k' ← get; pure (k'.proctab pid).prprio) k)

unfoldable pub yield : Code ℕ
yield = resched >> pure ok

unfoldable pub chprio : ℕ → ℕ → Code ℕ
chprio pid newprio k =
    if isbadpid k.proctab pid
    then done k syserr
    else done (set_proc pid (λ p. record p { prprio = newprio }) k) (k.proctab pid).prprio

unfoldable pub getprio : ℕ → Code ℕ
getprio pid k = if isbadpid k.proctab pid then done k syserr else done k (k.proctab pid).prprio

unfoldable pub getpid : Code ℕ
getpid k = done k k.currpid

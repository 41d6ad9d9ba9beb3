-- ===== src/Sleep.antt =====
-- Sleeping and the clock: system/sleep.c, unsleep.c, wakeup.c, clkhandler.c, and recvtime.c.
pub mod Due
pub mod Queues
pub mod Wakeup
pub mod Woken
use os_demand_paging.Base.{
  ℕ, zero, suc, true, false, not, ◌&&◌, ◌||◌, add32, sub32, mul32, slt, sle, syserr, ok, leb, ◌==◌,
  if◌then◌else◌,
}
use os_demand_paging.Process.{nproc, pr_sleep, pr_rectim, state_eq, isbadpid}
use os_demand_paging.Queue.{
  Queuetab, firstid, firstkey, isempty, set_key, dequeue, getitem, insertd,
}
use os_demand_paging.Kernel.{Kernel, done, Code, pure, ◌>>◌, modify, set_proc}
use os_demand_paging.Sched.{quantum, resched, resched_cntl, defer_start, defer_stop, ready, yield}

abbrev pub maxseconds : ℕ
maxseconds = 2147483

unfoldable pub sleepms : ℕ → Code ℕ
sleepms delay k =
    if slt delay 0
    then done k syserr
    else (if delay == 0
        then (yield >> pure ok) k
        else (let (t, r) = insertd k.proctab k.queuetab k.currpid k.sleepq delay in
            if r == syserr
            then done k syserr
            else (do
              modify (λ k. set_proc k.currpid (λ p. record p { prstate = pr_sleep }) k)
              resched
              pure ok)
                (record k { queuetab = t })))

unfoldable pub sleep : ℕ → Code ℕ
sleep delay k =
    if slt delay 0 || slt maxseconds delay
    then done k syserr
    else (sleepms (mul32 1000 delay) >> pure ok) k

-- The process leaves the sleep queue, and its delay goes to the process behind it.
unfoldable pub unsleep : ℕ → Kernel → Kernel × ℕ
unsleep pid k =
    if isbadpid k.proctab pid
    then (k, syserr)
    else (let state = (k.proctab pid).prstate in
        if not (state_eq state pr_sleep) && not (state_eq state pr_rectim)
        then (k, syserr)
        else (let t = k.queuetab in
            let pidnext = (t pid).qnext in
            let t' : Queuetab =
              if slt pidnext nproc
              then set_key t pidnext (add32 (t pidnext).qkey (t pid).qkey)
              else t in
            (record k { queuetab = (getitem t' pid).0 }, ok)))

-- `while (nonempty(sleepq) && (firstkey(sleepq) <= 0)) ready(dequeue(sleepq));`
unfoldable pub wakeup_loop : ℕ → Code (Unit {0})
wakeup_loop zero k = done k tt
wakeup_loop (suc fuel) k =
    elim (not (isempty k.queuetab k.sleepq) && sle (firstkey k.queuetab k.sleepq) 0) [
      | true ↦
          let (t, pid) = dequeue k.queuetab k.sleepq in
          (ready pid >> wakeup_loop fuel) (record k { queuetab = t })
      | false ↦ done k tt
    ]

-- The queue has at most `nproc` processes.
unfoldable pub wakeup : Code (Unit {0})
wakeup = do resched_cntl defer_start; wakeup_loop (suc nproc); resched_cntl defer_stop; pure tt

-- The milliseconds of the second. `(--count1000) <= 0` is a test for 0, since the count is unsigned.
unfoldable pub tick : Kernel → Kernel
tick k =
    let c = sub32 k.count1000 1 in
    if leb c 0
    then record k { count1000 = 1000; clktime = add32 k.clktime 1 }
    else record k { count1000 = c }

-- The delay of the first process goes down by one.
unfoldable pub tick_sleepers : Code (Unit {0})
tick_sleepers k =
    if not (isempty k.queuetab k.sleepq)
    then (let t = k.queuetab in
        let first = firstid t k.sleepq in
        let key = sub32 (t first).qkey 1 in
        let k' : Kernel = record k { queuetab = set_key t first key } in
        if sle key 0 then wakeup k' else done k' tt)
    else done k tt

-- `preempt` is unsigned too.
unfoldable pub tick_preempt : Code (Unit {0})
tick_preempt k =
    let p = sub32 k.preempt 1 in
    if leb p 0 then resched (record k { preempt = quantum }) else done (record k { preempt = p }) tt

unfoldable pub clkhandler : Code (Unit {0})
clkhandler = do modify tick; tick_sleepers; tick_preempt

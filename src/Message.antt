-- ===== src/Message.antt =====
-- Messages: system/send.c, receive.c, recvclr.c, recvtime.c.
pub mod Delivery
use os_demand_paging.Base.{ℕ, true, false, not, slt, syserr, ok, ◌==◌, if◌then◌else◌}
use os_demand_paging.Process.{pr_recv, pr_rectim, state_eq, isbadpid}
use os_demand_paging.Queue.{insertd}
use os_demand_paging.Kernel.{Kernel, done, Code, pure, ◌>>◌, modify, set_proc}
use os_demand_paging.Sched.{resched, ready}
use os_demand_paging.Sleep.{unsleep}

-- the pattern of TIMEOUT, -3
abbrev pub timeout : ℕ
timeout = 0xffff_fffd

-- The message is put into the entry of the process.
abbrev pub deliver : ℕ → ℕ → Kernel → Kernel
deliver pid msg = set_proc pid (λ p. record p { prmsg = msg; prhasmsg = true })

unfoldable pub send : ℕ → ℕ → Code ℕ
send pid msg k =
    if isbadpid k.proctab pid
    then done k syserr
    else (if (k.proctab pid).prhasmsg
        then done k syserr
        else (let k' = deliver pid msg k in
            let state = (k.proctab pid).prstate in
            if state_eq state pr_recv
            then (ready pid >> pure ok) k'
            else (if state_eq state pr_rectim
                then (ready pid >> pure ok) (unsleep pid k').0
                else done k' ok)))

-- The message of process `me` is taken.
unfoldable pub take_message : ℕ → Code ℕ
take_message me k = done (set_proc me (λ p. record p { prhasmsg = false }) k) (k.proctab me).prmsg

-- `prptr` stays the entry of the caller.
unfoldable pub receive : Code ℕ
receive k =
    let me = k.currpid in
    if not (k.proctab me).prhasmsg
    then (do modify (set_proc me (λ p. record p { prstate = pr_recv })); resched; take_message me) k
    else take_message me k

unfoldable pub recvclr : Code ℕ
recvclr k = let me = k.currpid in if (k.proctab me).prhasmsg then take_message me k else done k ok

-- Either a message arrived or the timer expired.
unfoldable pub take_or_timeout : ℕ → Code ℕ
take_or_timeout me k = if (k.proctab me).prhasmsg then take_message me k else done k timeout

unfoldable pub recvtime : ℕ → Code ℕ
recvtime maxwait k =
    if slt maxwait 0
    then done k syserr
    else (let me = k.currpid in
        if not (k.proctab me).prhasmsg
        then (let (t, r) = insertd k.proctab k.queuetab me k.sleepq maxwait in
            if r == syserr
            then done k syserr
            else (do
              modify (set_proc me (λ p. record p { prstate = pr_rectim }))
              resched
              take_or_timeout me)
                (record k { queuetab = t }))
        else take_or_timeout me k)

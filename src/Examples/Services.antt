-- ===== src/Examples/Services.antt =====
-- The sleep queue and a buffer pool.
use os_demand_paging.Message.{send, receive}
use os_demand_paging.Message.Delivery.{state_of, Sent, taken, receive-send}
use os_demand_paging.Examples.Processes.{fresh}
use os_demand_paging.Port.Fifo.{Holds}
use os_demand_paging.Port.Order.{InOrder, ptsend-ptrecv}
use os_demand_paging.Port.Nodes.{messages}
use os_demand_paging.Port.{pt_alloc}
use os_demand_paging.Process.{pr_sleep, pr_recv}
use os_demand_paging.Sched.{resched_cntl, defer_stop}
use os_demand_paging.Queue.Refine.{IsQueue}
use os_demand_paging.Queue.{Queuetab, set_key, insertd}
use os_demand_paging.Examples.Heap.{process, kernel}
use os_demand_paging.Examples.Queues.{ready_table, ready_table-IsQueue, away, procs}
use os_demand_paging.Queue.Slept.{Slept, insertd-Slept}
use os_demand_paging.Sleep.Due.{remove_sleeper, unsleep-Woken}
use os_demand_paging.Sleep.Wakeup.{Asleep}
use os_demand_paging.Sleep.Woken.{Woken, wakeup-Woken, deferring}
use os_demand_paging.Buffer.Pool.{GivenBack, getbuf-freebuf}
use os_demand_paging.Buffer.{getbuf, freebuf}
use os_demand_paging.Queue.Delta.{sleepers}
use os_demand_paging.Sleep.{unsleep, wakeup}
use os_demand_paging.Kernel.{Kernel, ◌>>◌, pure, done, set_proc}
use os_demand_paging.Base.{refl, inl, true, [], ◌∷◌, ℕ, ◌≡◌, arith, ok, syserr, false}

insertd-Slept_example :
    (t' : Queuetab) × (insertd procs ready_table 1 100 40 ≡ (t', ok))
    × Slept ready_table 100 1 40 (3 ∷ 2 ∷ []) t'
insertd-Slept_example =
    insertd-Slept procs ready_table 100 1 40 (3 ∷ 2 ∷ []) ready_table-IsQueue
      (omega arith, (omega arith, tt)) refl away (omega arith)

-- The processes 3 and 2 sleep; the ready list is empty.
abbrev dozing : ℕ → Kernel
dozing key = record (kernel 0) {
  queuetab = set_key ready_table 3 key;
  sleepq = 100;
  readylist = 102;
  proctab = λ p. record process { prstate = pr_sleep };
}

dozing-IsQueue : (key : ℕ) → IsQueue (dozing key).queuetab 100 (3 ∷ 2 ∷ [])
dozing-IsQueue key = record {
  lower = omega arith;
  upper = omega arith;
  procs = (omega arith, (omega arith, tt));
  distinct = ((omega arith, tt), (tt, tt));
  chain = (refl, refl, (refl, refl, (refl, refl)));
}

unsleep-Woken_example :
    (t' : Queuetab) × (unsleep 3 (dozing 30) ≡ (record (dozing 30) { queuetab = t' }, ok))
    × IsQueue t' 100 (2 ∷ [])
    × (sleepers t' 0 (2 ∷ []) ≡ remove_sleeper 3 (sleepers (dozing 30).queuetab 0 (3 ∷ 2 ∷ [])))
unsleep-Woken_example =
    unsleep-Woken (dozing 30) 3 [] (2 ∷ []) (dozing-IsQueue 30) (omega arith, (omega arith, tt))
      refl (inl refl)

dozing-Asleep : Asleep (deferring (dozing 0)) (3 ∷ 2 ∷ []) []
dozing-Asleep = record {
  sleeping = dozing-IsQueue 0;
  readyq = record {
    lower = omega arith;
    upper = omega arith;
    procs = tt;
    distinct = tt;
    chain = (refl, refl);
  };
  apart = record {
    heads = omega arith;
    tails = omega arith;
    crossed = omega arith;
    procs = (tt, (tt, tt));
  };
  sorted = tt;
  tail = refl;
  deferred = refl;
  fit = ((refl, omega arith, omega arith), ((refl, omega arith, omega arith), tt));
}

wakeup-Woken_example :
    (k' : Kernel) × Woken (deferring (dozing 0)) (3 ∷ 2 ∷ []) [] k'
    × (wakeup (dozing 0) ≡ (do resched_cntl defer_stop; pure tt) k')
wakeup-Woken_example = wakeup-Woken (dozing 0) (3 ∷ 2 ∷ []) [] dozing-Asleep

-- Pool 0 has its first free buffer at 4096, and its semaphore 5 counts two.
abbrev pooled : Kernel
pooled = record (kernel 0) {
  buftab = λ i. record { bpnext = 4096; bpsem = 5; bpsize = 16 };
  nbpools = 1;
  semtab = λ i. record { used = true; scount = 2; squeue = 104 };
}

getbuf-freebuf_example :
    (k1 : Kernel) × (k2 : Kernel) × GivenBack pooled 0 4096 k1 k2
    × (getbuf 0 pooled ≡ done k1 4100)
    × (freebuf 4100 k1 ≡ done k2 ok)
getbuf-freebuf_example =
    getbuf-freebuf pooled 0 4096 (omega arith) (omega arith) refl refl (omega arith) refl
      (omega arith) (omega arith)

-- Port 4 has the message 7 in the node 4096; the node 4104 is free.
abbrev posted : Kernel
posted = record (kernel 0) {
  porttab = λ i. record {
    ptssem = 1;
    ptrsem = 2;
    ptstate = pt_alloc;
    ptmaxcnt = 5;
    ptseq = 3;
    pthead = 4096;
    pttail = 4096;
  };
  ptfree = 4104;
  vm = record ((kernel 0).vm) { mem = λ a. 7 };
}

posted-Holds : Holds posted 4 (4096 ∷ []) (7 ∷ [])
unfolding messages
posted-Holds = record {
  nodes = ((refl, omega arith, omega arith), tt);
  distinct = (tt, tt);
  list = (refl, refl);
  contents = refl;
}

ptsend-ptrecv_example : InOrder posted 4 8 3 1 (7 ∷ [])
ptsend-ptrecv_example =
    ptsend-ptrecv posted 4 8 3 1 (4096 ∷ []) (7 ∷ []) refl (refl, omega arith, omega arith)
      (omega arith, tt) posted-Holds

-- Process 1 of `fresh` waits for a message and is of a higher priority than the sender.
abbrev receiver : Kernel
receiver = set_proc 1 (λ p. record p { prstate = pr_recv; prhasmsg = false; prprio = 30 }) fresh

receive-send_example :
    (k' : Kernel) × (state_of (send 1 77 receiver) ≡ k')
    × Sent receiver 1 77 k'
    × (send 1 78 k' ≡ done k' syserr)
    × (receive (record k' { currpid = 1 }) ≡ done (taken 1 (record k' { currpid = 1 })) 77)
receive-send_example = receive-send receiver 1 77 78 refl refl

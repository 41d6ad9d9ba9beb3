-- ===== src/Examples/Queues.antt =====
-- The ready list 100 holds the processes 3 and 2, the queue 102 is empty, process 1 runs.
use os_demand_paging.Semaphore.Balance.{IsSem, wait-IsSem, counted}
use os_demand_paging.Semaphore.Release.{Signalled, signal-Signalled}
use os_demand_paging.Semaphore.{wait}
use os_demand_paging.Sched.Dispatch.{Switched, resched-Switched}
use os_demand_paging.Queue.Insert.{insert-Inserted}
use os_demand_paging.Sched.{resched}
use os_demand_paging.Queue.Order.{Inserted}
use os_demand_paging.Examples.Heap.{kernel, process}
use os_demand_paging.Process.{Procent, pr_wait}
use os_demand_paging.Kernel.{Kernel, done, switch, ◌>>◌, pure}
use os_demand_paging.Queue.Chain.{Fresh}
use os_demand_paging.Queue.Others.{Apart}
use os_demand_paging.Queue.Refine.{IsQueue}
use os_demand_paging.Queue.{Queuetab, Qentry, insert, empty, maxkey, minkey}
use os_demand_paging.Base.{
  refl, [], ◌∷◌, Table, slt, ℕ, arith, if◌then◌else◌, ◌≡◌, ok, true, ◌==◌, false, ◌⊎◌, inr, inl,
  sub32,
}

abbrev entry : ℕ → ℕ → ℕ → Qentry
entry key next prev = record { qkey = key; qnext = next; qprev = prev }

abbrev pub ready_table : Queuetab
ready_table i =
    if i == 100
    then entry maxkey 3 empty
    else (if i == 3
        then entry 30 2 100
        else (if i == 2
            then entry 20 101 3
            else (if i == 101
                then entry minkey empty 2
                else (if i == 102 then entry maxkey 103 empty else entry minkey empty 102))))

abbrev pub procs : Table Procent
procs p = process

pub ready_table-IsQueue : IsQueue ready_table 100 (3 ∷ 2 ∷ [])
ready_table-IsQueue = record {
  lower = omega arith;
  upper = omega arith;
  procs = (omega arith, (omega arith, tt));
  distinct = ((omega arith, tt), (tt, tt));
  chain = (refl, refl, (refl, refl, (refl, refl)));
}

other-IsQueue : IsQueue ready_table 102 []
other-IsQueue = record {
  lower = omega arith;
  upper = omega arith;
  procs = tt;
  distinct = tt;
  chain = (refl, refl);
}

apart : Apart 100 (3 ∷ 2 ∷ []) 102 []
apart = record {
  heads = omega arith;
  tails = omega arith;
  crossed = omega arith;
  procs = (tt, (tt, tt));
}

pub away : Fresh 1 (3 ∷ 2 ∷ [])
away = (omega arith, (omega arith, tt))

insert-Inserted_example :
    (t' : Queuetab) × (insert procs ready_table 1 100 25 ≡ (t', ok))
    × Inserted ready_table 100 1 25 (3 ∷ 2 ∷ []) t'
insert-Inserted_example =
    insert-Inserted procs ready_table 100 1 25 (3 ∷ 2 ∷ []) ready_table-IsQueue (refl, tt) refl refl
      away (omega arith) (omega arith)

abbrev busy : Kernel
busy = record (kernel 0) { queuetab = ready_table }

resched-Switched_example :
    ((slt 30 20 ≡ true) × (resched busy ≡ done busy tt))
    ⊎ ((slt 30 20 ≡ false)
        × (k' : Kernel) × (resched busy ≡ switch k' (λ k''. done k'' tt))
        × Switched busy 3 (2 ∷ []) k')
resched-Switched_example = resched-Switched busy 3 (2 ∷ []) (record {
  queue = ready_table-IsQueue;
  tail = refl;
  sorted = (refl, tt);
  live = refl;
  running = refl;
  away = away;
  prio_lt = omega arith;
  prio_above = omega arith;
  undeferred = refl;
})

-- Semaphore 0 has one signal and the empty queue 102; the processes 3 and 2 wait for semaphore 1.
abbrev guarded : Kernel
guarded = record busy {
  semtab = λ s.
      if s == 0
      then record { used = true; scount = 1; squeue = 102 }
      else record { used = true; scount = 0xffff_fffe; squeue = 100 };
}

wait-IsSem_example :
    ((k' : Kernel) × (wait 0 guarded ≡ done k' ok)
      × IsSem k' 0 []
      × (slt 0 (guarded.semtab 0).scount ≡ true)
      × (k'.semtab ≡ counted guarded 0 (sub32 (guarded.semtab 0).scount 1))
      × (k'.queuetab ≡ ready_table)
      × (k'.proctab ≡ procs))
    ⊎ ((k' : Kernel) × (wait 0 guarded ≡ (resched >> pure ok) k')
        × IsSem k' 0 (1 ∷ [])
        × (slt 0 (guarded.semtab 0).scount ≡ false)
        × (k'.semtab ≡ counted guarded 0 (sub32 (guarded.semtab 0).scount 1))
        × ((k'.proctab 1).prstate ≡ pr_wait)
        × ((k'.proctab 1).prsem ≡ 0))
wait-IsSem_example =
    wait-IsSem guarded 0 []
      (record { opened = refl; queue = other-IsQueue; balance = inl (refl, omega arith) }) refl tt

signal-Signalled_example : Signalled guarded 1 (3 ∷ 2 ∷ [])
signal-Signalled_example =
    signal-Signalled guarded 1 (3 ∷ 2 ∷ [])
      (record {
        opened = refl;
        queue = ready_table-IsQueue;
        balance = inr (omega arith, omega arith);
      })
      (omega arith)

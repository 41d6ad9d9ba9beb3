-- ===== src/Examples/Boot.antt =====
-- The start of the system, from a state with three processes.
use os_demand_paging.Examples.Processes.{fresh}
use os_demand_paging.Examples.Frames.{locals}
use os_demand_paging.Startup.{meminit, init_queues, init_paging, holeend}
use os_demand_paging.Startup.Queues.{IsEmptyQueue, init_queues_lem, unused}
use os_demand_paging.Startup.Heap.{IsInitial, meminit-IsInitial}
use os_demand_paging.Startup.Outcome.{PagingOn, init_paging-PagingOn}
use os_demand_paging.FreeList.{Memory}
use os_demand_paging.Process.{nproc}
use os_demand_paging.Queue.{nqent}
use os_demand_paging.Base.{◌≡◌, [], ◌∷◌, arith, refl}

init_paging-PagingOn_example : PagingOn fresh (init_paging (λ i. locals) fresh)
init_paging-PagingOn_example = init_paging-PagingOn (λ i. locals) fresh

init_queues_lem_example :
    ((init_queues (fresh, nproc)).0.semtab 7 ≡ unused 114)
    × IsEmptyQueue (init_queues (fresh, nproc)).0.queuetab 114
    × ((init_queues (fresh, nproc)).0.readylist ≡ 300)
    × IsEmptyQueue (init_queues (fresh, nproc)).0.queuetab 300
    × ((init_queues (fresh, nproc)).0.sleepq ≡ 302)
    × IsEmptyQueue (init_queues (fresh, nproc)).0.queuetab 302
    × ((init_queues (fresh, nproc)).1 ≡ nqent)
init_queues_lem_example = init_queues_lem fresh 7 (omega arith)

-- A machine with 16 MB.
abbrev sixteen : Memory
sixteen = record { blocks = []; total = 0; minheap = 0; maxheap = 16777215 }

meminit-IsInitial_example : IsInitial 400003 16777215 (meminit 400003 sixteen)
meminit-IsInitial_example =
    meminit-IsInitial 400003 sixteen (omega arith) (omega arith) (omega arith)

-- The block behind the hole ends below the stack of the null process.
meminit-blocks :
    (meminit 400003 sixteen).blocks
    ≡ record { addr = 400008; mlength = 255352 }
      ∷ record { addr = 1048576; mlength = 15720440 }
      ∷ []
unfolding meminit
meminit-blocks = refl

-- With 1 MB the length of the second block wraps round.
abbrev one_mb : Memory
one_mb = record { blocks = []; total = 0; minheap = 0; maxheap = 1048575 }

meminit-one_mb :
    (meminit 400003 one_mb).blocks
    ≡ record { addr = 400008; mlength = 255352 }
      ∷ record { addr = holeend; mlength = 4294959096 }
      ∷ []
unfolding meminit
meminit-one_mb = refl

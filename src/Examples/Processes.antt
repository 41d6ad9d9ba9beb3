-- ===== src/Examples/Processes.antt =====
-- A process that is made, and its virtual heap: `create`, `vcreate`, `vmalloc` and `vfree`.
use os_demand_paging.Paging.Alloc.{is_free}
use os_demand_paging.Vmalloc.{num_pages, vmalloc_rest}
use os_demand_paging.Vmalloc.Grant.{Grant, pdbr_of}
use os_demand_paging.FreeList.{getmem, first_fit}
use os_demand_paging.Paging.Frames.{
  free_frame, max_pt_size, max_ffs_size, max_swap_size, ffs_start, page_size,
}
use os_demand_paging.Process.{nullproc, pr_free}
use os_demand_paging.Kernel.{Kernel, done}
use os_demand_paging.Examples.Heap.{process, kernel, tables_with, tables_with-HasTables}
use os_demand_paging.Examples.Frames.{locals, crowded}
use os_demand_paging.Create.Outcome.{create_lem, Created, Refused}
use os_demand_paging.Create.Layout.{build_stack_lem, length, word, frame}
use os_demand_paging.Create.{create, build_stack, stackmagic}
use os_demand_paging.Vcreate.Outcome.{vcreate_lem}
use os_demand_paging.Vcreate.Heap.{add_space_lem, first_vmalloc, Added, Node, run}
use os_demand_paging.Vcreate.{vcreate, add_space}
use os_demand_paging.Vfree.Result.{vfree_lem, Freed, refuses}
use os_demand_paging.Vfree.Back.{vmalloc-vfree, GivenBack, Unswapped}
use os_demand_paging.Vfree.{vfree}
use os_demand_paging.Base.{
  refl, true, false, [], ◌∷◌, if◌then◌else◌, ◌-◌, ℕ, ◌≡◌, ◌+◌, leb, ◌*◌, ◌&&◌, ltb, ◌==◌, arith,
  ◌⊎◌, count_if, syserr, ok, count_if_all,
}

-- Three processes, a heap of one block, and page table frames that are all free.
abbrev pub fresh : Kernel
fresh = record (kernel 0) {
  proctab = λ p. if ltb p 3 then process else record process { prstate = pr_free };
  memory = record {
    blocks = record { addr = 2097152; mlength = 65536 } ∷ [];
    total = 65536;
    minheap = 2097152;
    maxheap = 2162688;
  };
  vm = record crowded { mem = λ a. 0 };
}

create_lem_example :
    ((k' : Kernel) × Refused fresh 20 1000 k'
      × (create 1 2 1000 20 (λ i. 0) (7 ∷ 8 ∷ []) fresh ≡ done k' syserr))
    ⊎ ((pid : ℕ) × (k' : Kernel) × Created fresh 0 pid 20 1000 k'
        × (create 1 2 1000 20 (λ i. 0) (7 ∷ 8 ∷ []) fresh ≡ done k' pid))
create_lem_example = create_lem 1 2 1000 20 (λ i. 0) (7 ∷ 8 ∷ []) fresh

vcreate_lem_example :
    ((k' : Kernel) × Refused fresh 20 1000 k'
      × (k'.cr3 ≡ (fresh.proctab nullproc).pdbr)
      × (vcreate (λ i. locals) 1 2 1000 20 (λ i. 0) (7 ∷ 8 ∷ []) fresh ≡ done k' syserr))
    ⊎ ((pid : ℕ) × (k' : Kernel) × Created fresh 1 pid 20 1000 k'
        × ((k'.proctab pid).heap_size ≡ max_ffs_size)
        × ((k'.proctab pid).swap_size ≡ max_swap_size)
        × (k'.vm.ptab ≡ fresh.vm.ptab)
        × (vcreate (λ i. locals) 1 2 1000 20 (λ i. 0) (7 ∷ 8 ∷ []) fresh
            ≡ done (add_space (λ i. locals) pid k') pid))
vcreate_lem_example = vcreate_lem (λ i. locals) 1 2 1000 20 (λ i. 0) (7 ∷ 8 ∷ []) fresh

two_args-length : length (7 ∷ 8 ∷ []) ≡ 2
unfolding length
two_args-length = refl

build_stack_lem_example :
    let saddr = 4 * (1000 + 12 + length (7 ∷ 8 ∷ [])) in
    let s = build_stack (λ a. 0) saddr (7 ∷ 8 ∷ []) 1 2 in
    (s.sp ≡ 4 * 1000)
    × ((x : ℕ)
        → s.mem x ≡ (
            if x == 1000 + 12 + length (7 ∷ 8 ∷ [])
            then stackmagic
            else (if leb 1000 x && ltb x (1000 + 12 + length (7 ∷ 8 ∷ []))
                then word (frame 1000 saddr 1 2 (7 ∷ 8 ∷ [])) (x - 1000)
                else 0)))
build_stack_lem_example =
    build_stack_lem (λ a. 0) 1000 1 2 (7 ∷ 8 ∷ []) (omega (arith, two_args-length))

all_free : count_if (is_free fresh.vm.ptab) max_pt_size 0 ≡ max_pt_size
all_free = count_if_all (is_free fresh.vm.ptab) max_pt_size 0 (λ k. refl)

fresh-Node : Node (getmem fresh.memory 8).1
unfolding getmem first_fit
fresh-Node = record { aligned = refl; below = omega arith }

add_space_lem_example :
    (d : ℕ) × Added fresh 3 d (getmem fresh.memory 8).1 (add_space (λ i. locals) 3 fresh)
add_space_lem_example = add_space_lem (λ i. locals) 3 fresh (omega (arith, all_free)) fresh-Node

first_vmalloc_example :
    (k' : Kernel) × Grant (run 3 (add_space (λ i. locals) 3 fresh)) (num_pages 8192) 0 k'
    × (vmalloc_rest 8192 (run 3 (add_space (λ i. locals) 3 fresh))
        ≡ done k' (ffs_start * page_size))
first_vmalloc_example =
    first_vmalloc (λ i. locals) 3 8192 fresh (omega (arith, all_free)) fresh-Node (omega arith)
      (omega arith)

-- A process whose virtual heap is free.
abbrev free_heap : Kernel
free_heap = record (kernel 0) {
  vm = record crowded { stab = λ i. free_frame; mem = tables_with 3584 };
}

vfree_lem_example :
    ((refuses (5121 * 4096) 8192 ≡ true)
      × (vfree (5121 * 4096) 8192 free_heap
          ≡ done (record free_heap { cr3 = pdbr_of free_heap }) syserr))
    ⊎ ((refuses (5121 * 4096) 8192 ≡ false)
        × ((k' : Kernel) × Freed free_heap (5121 * 4096) 8192 k'
            × (vfree (5121 * 4096) 8192 free_heap ≡ done k' ok)))
vfree_lem_example = vfree_lem (5121 * 4096) 8192 free_heap (omega arith) (omega arith)

free_heap-Unswapped : Unswapped free_heap
free_heap-Unswapped = record {
  aligned = refl;
  word = omega arith;
  pid = omega arith;
  frames = λ i h. refl;
}

vmalloc-vfree_example : GivenBack free_heap 2
vmalloc-vfree_example =
    vmalloc-vfree free_heap 2 (omega arith) (omega arith) (tables_with-HasTables 3584)
      free_heap-Unswapped

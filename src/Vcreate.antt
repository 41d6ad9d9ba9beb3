-- ===== src/Vcreate.antt =====
-- system/vcreate.c: a process with a virtual heap. The first argument has the uninitialised locals of
-- the calls of `get_phy_fr_num`: `u i` are those of the call number `i`.
pub mod Rows
pub mod Space
pub mod Build
pub mod Directory
pub mod View
pub mod Result
pub mod Heap
pub mod Outcome
use os_demand_paging.FreeList.{getstk, getmem}
use os_demand_paging.Paging.Bytes.{store, load}
use os_demand_paging.Kernel.{Kernel, Code, done, set_proc}
use os_demand_paging.Create.{newpid, stack_size, fill_entry, with_stack, build_stack}
use os_demand_paging.Paging.Frames.{
  ffs_start, Vm, num_ent_ppage, page_size, page_directory, page_table, max_ffs_size, xinu_pages,
  max_swap_size,
}
use os_demand_paging.Paging.Alloc.{Locals, take_pt_frame}
use os_demand_paging.Paging.Fill.{set_pte, set_pde, init_pde}
use os_demand_paging.Process.{Procent, nullproc}
use os_demand_paging.Paging.Entry.{Mem, put_pt, pt_at}
use os_demand_paging.Base.{
  Table, ℕ, for_range, List, ◌*◌, shl, ◌+◌, add32, mul32, put, if◌then◌else◌, slt, ◌/◌, syserr,
  ◌==◌,
}

-- The search of this file's own `newpid`, which is the one of create.c with its own `nextpid`.
abbrev pub vnewpid : Table Procent → ℕ → ℕ × ℕ
vnewpid = newpid

-- One entry of a page table: `set_pte`, and the three free bits.
unfoldable pub user_entry : Mem → ℕ → ℕ → Mem
user_entry m a pg =
    let m1 = (set_pte m a pg).0 in
    let m2 = put_pt m1 a (record (pt_at m1 a) { pt_avail = 1 }) in
    let m3 = put_pt m2 a (record (pt_at m2 a) { pt_avail2 = 1 }) in
    put_pt m3 a (record (pt_at m3 a) { pt_avail3 = 1 })

-- The entries of table `i`, at `pt_base`.
unfoldable pub user_table : Mem → ℕ → ℕ → Mem
user_table m pt_base i =
    for_range num_ent_ppage 0 (λ j m'. user_entry m' (pt_base + 4 * j) (i * num_ent_ppage + j)) m

-- One round of the loop over the tables.
unfoldable pub add_table : (ℕ → Locals) → ℕ → ℕ → ℕ → Vm → Vm
add_table u pid pr_pd i s0 =
    let (s, fr) = take_pt_frame s0 (u (i + 1)) pid page_table in
    let m = (set_pde s.mem (pr_pd + 4 * i) fr).0 in
    record s { mem = user_table m (mul32 fr page_size) i }

-- The directory, and its first four tables; the result is the frame of the directory.
unfoldable pub user_space : (ℕ → Locals) → ℕ → Vm → Vm × ℕ
user_space u pid s0 =
    let (s, fr) = take_pt_frame s0 (u 0) pid page_directory in
    let pr_pd = mul32 fr page_size in
    let s1 : Vm = record s { mem = (init_pde s.mem pr_pd).0 } in
    (for_range (xinu_pages / num_ent_ppage) 0 (add_table u pid pr_pd) s1, fr)

-- The two list nodes of the virtual heap; the second is in the first frame of the FFS area.
unfoldable pub heap_list : Mem → ℕ → Mem
heap_list m a =
    let first = ffs_start * page_size in
    let m1 = store m (add32 a 4) (page_size * max_ffs_size) in
    let m2 = store m1 a first in
    let next = load m2 a in store (store m2 (add32 next 4) (page_size * max_ffs_size)) next 0

-- What follows the stack: the page tables, the list, and `cr3`.
unfoldable pub add_space : (ℕ → Locals) → ℕ → Kernel → Kernel
add_space u pid k =
    let (vm, fr) = user_space u pid k.vm in
    let pdbr = shl fr 12 in
    let (memory, a) = getmem k.memory 8 in
    let p = record (k.proctab pid) { pdbr = pdbr; v_freelist = a } in
    record k {
      vm = record vm { mem = heap_list vm.mem a };
      memory = memory;
      proctab = put k.proctab pid p;
      cr3 = pdbr;
    }

unfoldable pub vcreate : (ℕ → Locals) → ℕ → ℕ → ℕ → ℕ → Table ℕ → List ℕ → Code ℕ
vcreate u initret funcaddr ssize0 priority name args k0 =
    let ssize = stack_size ssize0 in
    let k : Kernel = record k0 { cr3 = (k0.proctab nullproc).pdbr } in
    if slt priority 1
    then done k syserr
    else (let (next, pid) = vnewpid k.proctab k.vnextpid in
        let k1 : Kernel = record k { vnextpid = next } in
        if pid == syserr
        then done k1 syserr
        else (let (memory, saddr) = getstk k1.memory ssize in
            let k2 : Kernel = record k1 { memory = memory } in
            if saddr == syserr
            then done k2 syserr
            else (let k3 = fill_entry k2 pid ssize priority saddr name 1 in
                let k4 =
                  set_proc pid
                    (λ p. record p { heap_size = max_ffs_size; swap_size = max_swap_size }) k3 in
                let k5 = with_stack pid (build_stack k4.vm.mem saddr args initret funcaddr) k4 in
                done (add_space u pid k5) pid)))

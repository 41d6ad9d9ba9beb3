-- ===== src/Startup.antt =====
-- Start-up: `sysinit` of system/initialize.c with meminit.c and clkinit.c. The initialisation of the
-- PCI bus, the interrupt vectors and the clock's hardware is left out; that of the devices is
-- the argument `devices`. `u i` are the uninitialised locals of the call number `i` of `get_phy_fr_num`.
pub mod Queues
pub mod Tables
pub mod Identity
pub mod Outcome
pub mod Heap
use os_demand_paging.Sched.{quantum}
use os_demand_paging.Process.{nproc, nsem, pr_free, nullproc, pr_curr}
use os_demand_paging.Paging.Entry.{Mem}
use os_demand_paging.Create.{pnmlen}
use os_demand_paging.FreeList.{Memory, Block, roundmb, getstk}
use os_demand_paging.Queue.{newqueue}
use os_demand_paging.Kernel.{Kernel, Sentry, set_proc}
use os_demand_paging.Paging.Frames.{
  Vm, init_frames, max_ffs_size, page_directory, page_table, xinu_pages, max_pt_size, max_swap_size,
  num_ent_ppage, page_size,
}
use os_demand_paging.Paging.Alloc.{Locals, take_pt_frame}
use os_demand_paging.Paging.Fill.{init_pde, set_pde, set_pte}
use os_demand_paging.Base.{
  refl, zero, suc, inl, inr, true, false, none, some, [], ◌∷◌, if◌then◌else◌, ◌-◌, ◌++◌, ℕ, ◌≡◌,
  ◌+◌, ◌<◌, ◌≢◌, leb, ◌*◌, ◌&&◌, ltb, ◌/◌, ◌==◌, arith, ◌≤◌, ◌∙◌, ◌⊎◌, ◌||◌, List, ap, Table, add32,
  for_range, put, sweep, mul32, sub32, shl, shr,
}

abbrev pub holestart : ℕ
holestart = 640 * 1024

abbrev pub holeend : ℕ
holeend = 1024 * 1024

abbrev pub nullstk : ℕ
nullstk = 8192

-- `truncmb`: down to a multiple of 8
abbrev pub truncmb : ℕ → ℕ
truncmb x = x / 8 * 8

-- The free list at the start, for the address `end` behind the kernel: one block, or two around the
-- hole. The field with the total length is not assigned.
unfoldable pub meminit : ℕ → Memory → Memory
meminit end m =
    let m' : Memory = record m { minheap = end } in
    if ltb holestart (add32 m.maxheap 1)
    then record m' {
      blocks =
          record { addr = roundmb end; mlength = truncmb (sub32 (sub32 holestart end) 4) }
          ∷ record { addr = holeend; mlength = truncmb (sub32 (sub32 m.maxheap holeend) nullstk) }
          ∷ [];
    }
    else record m' {
      blocks =
          record { addr = roundmb end; mlength = truncmb (sub32 (sub32 m.maxheap end) nullstk) }
          ∷ [];
    }

-- "prnull" with its NUL
abbrev pub null_name : Table ℕ
null_name i =
    if i == 0
    then b'p'
    else (if i == 1
        then b'r'
        else (if i == 2 then b'n' else (if i == 3 then b'u' else (if ltb i 6 then b'l' else 0))))

-- The process table: every entry free, and then the null process, which runs.
unfoldable pub init_procs : Kernel → Kernel
init_procs k =
    let free =
      sweep nproc 0
        (λ i p. record p {
          prstate = pr_free;
          prname = put p.prname 0 0;
          prstkbase = 0;
          prprio = 0;
        })
        k.proctab in
    let (memory, saddr) = getstk k.memory nullstk in
    set_proc nullproc
      (λ p. record p {
        prstate = pr_curr;
        prprio = 0;
        prname = λ i. if ltb i 7 then null_name i else p.prname i;
        prstkbase = saddr;
        prstklen = nullstk;
        prstkptr = 0;
        is_user_proc = 0;
      })
      (record k { proctab = free; prcount = 1; ndefers = 0; currpid = nullproc; memory = memory })

-- The queues of the semaphores; the second part is `nextqid` of `newqueue`.
unfoldable pub init_sem : ℕ → Kernel × ℕ → Kernel × ℕ
init_sem i s =
    let (t, next, q) = newqueue s.0.queuetab s.1 in
    (
      record s.0 {
        queuetab = t;
        semtab = put s.0.semtab i (record { used = false; scount = 0; squeue = q });
      },
      next,
    )

unfoldable pub init_queues : Kernel × ℕ → Kernel × ℕ
init_queues s0 =
    let s = for_range nsem 0 init_sem s0 in
    let (t, next, ready) = newqueue s.0.queuetab s.1 in
    let (t', next', sleep) = newqueue t next in
    (
      record s.0 {
        nbpools = 0;
        queuetab = t';
        readylist = ready;
        sleepq = sleep;
        preempt = quantum;
        clktime = 0;
      },
      next',
    )

-- The entries of table `i` of the null process, at `pt_base`.
unfoldable pub kernel_table : Mem → ℕ → ℕ → Mem
kernel_table m pt_base i =
    for_range num_ent_ppage 0 (λ j m'. (set_pte m' (pt_base + 4 * j) (i * num_ent_ppage + j)).0) m

unfoldable pub add_kernel_table : (ℕ → Locals) → ℕ → ℕ → ℕ → Vm → Vm
add_kernel_table u pid pd_base i s0 =
    let (s, fr) = take_pt_frame s0 (u (i + 1)) pid page_table in
    let m = (set_pde s.mem (pd_base + 4 * i) fr).0 in
    record s { mem = kernel_table m (mul32 fr page_size) i }

abbrev pub total_pages : ℕ
total_pages = xinu_pages + max_pt_size + max_swap_size + max_ffs_size

-- The directory of the null process, with tables for all pages; the result is its frame.
unfoldable pub kernel_space : (ℕ → Locals) → ℕ → Vm → Vm × ℕ
kernel_space u pid s0 =
    let (s, fr) = take_pt_frame s0 (u 0) pid page_directory in
    let pd_base = mul32 fr page_size in
    let s1 : Vm = record s { mem = (init_pde s.mem pd_base).0 } in
    (for_range (total_pages / num_ent_ppage) 0 (add_kernel_table u pid pd_base) s1, fr)

-- The frames, and paging.
unfoldable pub init_paging : (ℕ → Locals) → Kernel → Kernel
init_paging u k =
    let s : Vm = record k.vm {
      available_heap_size = max_ffs_size;
      available_swap_size = max_swap_size;
      latency = 0;
    } in
    let (vm, fr) = kernel_space u k.currpid (init_frames s).0 in
    let pdbr = shl (shr (mul32 fr page_size) 12) 12 in
    set_proc k.currpid (λ p. record p { pdbr = pdbr }) (record k { vm = vm; cr3 = pdbr })

unfoldable pub sysinit : (ℕ → Locals) → ℕ → (Kernel → Kernel) → Kernel → Kernel
sysinit u end devices k =
    let k1 = init_procs (record k { memory = meminit end k.memory }) in
    let (k2, nextqid) = init_queues (k1, nproc) in init_paging u (devices k2)

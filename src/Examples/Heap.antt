-- ===== src/Examples/Heap.antt =====
-- A process with four page tables, at `vmalloc` and at the page fault handler.
use os_demand_paging.Vmalloc.Grant.{Grant, vmalloc_rest_lem}
use os_demand_paging.Examples.Frames.{directory, locals, crowded}
use os_demand_paging.Vmalloc.Run.{heap_pages, page_bit, IsRun}
use os_demand_paging.PageFault.SwapIn.{SwappedIn, pte_of, serve-SwappedIn}
use os_demand_paging.Paging.Frames.{Vm}
use os_demand_paging.Vmalloc.{num_pages, vmalloc_rest}
use os_demand_paging.Queue.{empty}
use os_demand_paging.PageFault.Access.{address, tested_page, stored, pagefault_handler_access}
use os_demand_paging.Examples.Frames.{locals, crowded, crowded-Coherent, crowded-SwappedOut}
use os_demand_paging.Kernel.{Ttycblk, Kernel, done}
use os_demand_paging.Vmalloc.Tables.{HasTables, table}
use os_demand_paging.PageFault.{Garbage, pagefault_handler, finish, refused, serve, served}
use os_demand_paging.Process.{Procent, pr_curr}
use os_demand_paging.Paging.Entry.{Mem, decode_pd, decode_pt}
use os_demand_paging.Base.{
  true, refl, ℕ, if◌then◌else◌, ◌*◌, ◌+◌, ◌<◌, arith, false, ltb, ◌≡◌, [], ◌%◌, ◌≤◌, ◌!=◌, syserr,
  ◌⊎◌,
}

-- The directory in frame 4096 names the tables in the frames from 4097 on, whose entries are all `v`.
abbrev pub tables_with : ℕ → Mem
tables_with v a = if ltb a (4097 * 1024) then (4097 + a % 1024) * 4096 + 3 else v

-- The pages of the first four rows are taken, those of the other rows are free.
abbrev four_tables : Mem
four_tables = tables_with 3072

abbrev pub process : Procent
process = record {
  prstate = pr_curr;
  prprio = 20;
  prstkptr = 0;
  prstkbase = 0;
  prstklen = 0;
  prname = λ i. 0;
  prsem = 0;
  prparent = 0;
  prmsg = 0;
  prhasmsg = false;
  prdesc = λ i. 0;
  pdbr = 4096 * 4096;
  v_freelist = 0;
  is_user_proc = 1;
  heap_size = 0;
  swap_size = 8192;
}

-- A terminal line as `ttyinit` leaves it, with the semaphores 1 and 2.
abbrev pub cooked_line : Ttycblk
cooked_line = record {
  tyihead = 0;
  tyitail = 0;
  tyibuff = λ i. 0;
  tyisem = 1;
  tyohead = 0;
  tyotail = 0;
  tyobuff = λ i. 0;
  tyosem = 2;
  tyehead = 0;
  tyetail = 0;
  tyebuff = λ i. 0;
  tyimode = b'C';
  tyiecho = true;
  tyieback = true;
  tyevis = true;
  tyecrlf = true;
  tyicrlf = true;
  tyierase = true;
  tyierasec = 8;
  tyierasec2 = 127;
  tyeof = true;
  tyeofch = 4;
  tyikill = true;
  tyikillc = 21;
  tyicursor = 0;
  tyoflow = true;
  tyoheld = false;
  tyostop = 19;
  tyostart = 17;
  tyocrlf = true;
  tyifullc = 7;
}

abbrev pub kernel : ℕ → Kernel
kernel cr2 = record {
  proctab = λ p. process;
  prcount = 3;
  currpid = 1;
  nextpid = 2;
  vnextpid = 2;
  queuetab = λ i. record { qkey = 0; qnext = empty; qprev = empty };
  readylist = 100;
  sleepq = 102;
  semtab = λ i. record { used = false; scount = 0; squeue = 104 };
  nextsem = 0;
  buftab = λ i. record { bpnext = 0; bpsem = 0; bpsize = 0 };
  nbpools = 0;
  porttab = λ i. record {
    ptssem = 0;
    ptrsem = 0;
    ptstate = 1;
    ptmaxcnt = 0;
    ptseq = 0;
    pthead = 0;
    pttail = 0;
  };
  ptfree = 0;
  ptnextid = 0;
  ndefers = 0;
  attempt = false;
  preempt = 2;
  clktime = 0;
  count1000 = 1000;
  memory = record { blocks = []; total = 0; minheap = 0; maxheap = 0 };
  vm = record crowded { mem = four_tables };
  cr2 = cr2;
  cr3 = 4096 * 4096;
  tty = cooked_line;
  uart = record { ier = 0; sent = [] };
  net = record {
    arpcache = λ i. record { arstate = 0; arpaddr = 0; arpid = 0; arhaddr = [] };
    netdata = record { ipucast = 0; ipbcast = 0; ipvalid = false; ethucast = []; ethbcast = [] };
  };
}

abbrev garbage : Garbage
garbage = record { virt_addr = 0; check_bit = 0; for_table = locals; for_frame = locals }

tables_with-table : (v t : ℕ) → t < 4 → table (tables_with v) (4096 * 4096) t ≡ 4097 + t
unfolding decode_pd
tables_with-table v t h = ground arith

pub tables_with-HasTables : (v : ℕ) → HasTables (tables_with v) (4096 * 4096)
tables_with-HasTables v = record {
  distinct = λ t u ht hu e. omega (arith, tables_with-table v t ht, tables_with-table v u hu);
  apart = λ t u ht hu e. omega (arith, tables_with-table v u hu);
}

vmalloc_rest_lem_example :
    (((p : ℕ)
        → p + num_pages 8192 ≤ heap_pages
        → ¬ IsRun (page_bit four_tables (4096 * 4096)) p (num_pages 8192))
      × (vmalloc_rest 8192 (kernel 0) ≡ done (kernel 0) syserr))
    ⊎ ((a : ℕ) × (k' : Kernel) × Grant (kernel 0) (num_pages 8192) a k'
        × (vmalloc_rest 8192 (kernel 0) ≡ done k' ((a + 5120) * 4096)))
vmalloc_rest_lem_example =
    vmalloc_rest_lem 8192 (kernel 0) (omega arith) (omega arith) (tables_with-HasTables 3072)

-- A page of row 4 that is free: the handler serves the fault.
pagefault_handler_access_example :
    pagefault_handler garbage (kernel (address 4100 8))
    ≡ finish
        (4096 * 4096)
        (if page_bit four_tables (4096 * 4096) (tested_page 4100) != 0
          then refused (stored (kernel (address 4100 8)) garbage)
          else serve
              (λ q. 4096 * 4096)
              garbage
              1
              (4100 + 5120)
              (4096 * 4096)
              (address 4100 8)
              (stored (kernel (address 4100 8)) garbage))
        (kernel (address 4100 8))
pagefault_handler_access_example =
    pagefault_handler_access (kernel (address 4100 8)) garbage 4100 8 (omega arith) (omega arith)
      refl
      (record {
        directory = omega arith;
        directory_lt = omega arith;
        tables = λ t h. omega (arith, tables_with-table 3072 t h);
        wild = omega arith;
      })

-- The page 17000 comes back from swap frame 0.
serve-SwappedIn_example :
    (i : ℕ) × (s' : Vm) × SwappedIn crowded 1 17000 0
      (pte_of directory garbage 1 17000 (4096 * 4096) (17000 * 4096) crowded 0)
      s'
      i
    × (serve directory garbage 1 17000 (4096 * 4096) (17000 * 4096) crowded ≡ served s')
unfolding decode_pd decode_pt
serve-SwappedIn_example =
    serve-SwappedIn directory garbage 1 17000 (4096 * 4096) (17000 * 4096) crowded 0 (omega arith)
      (omega arith) crowded-Coherent crowded-SwappedOut (λ j e. ground arith)
      (record { wild = omega arith; word = refl })
      (record { above = omega arith; below = omega arith })

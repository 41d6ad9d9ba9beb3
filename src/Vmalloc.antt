-- ===== src/Vmalloc.antt =====
-- system/vmalloc.c. The virtual heap of a process has 12 rows of 1024 pages. Page `j` of row `i` is
-- free as long as a bit of entry `j` of page table `i % 4` of the process is set: `pt_avail` for
-- rows 0 to 3, `pt_avail2` for rows 4 to 7, `pt_avail3` for rows 8 to 11.
pub mod Run
pub mod Search
pub mod Tables
pub mod Mark
pub mod Grant
use os_demand_paging.Base.{
  ℕ, zero, suc, ◌+◌, ◌*◌, ◌-◌, ◌/◌, ◌%◌, Bool, true, false, ◌||◌, add32, sub32, shl, minus_one,
  syserr, ltb, ◌==◌, ◌!=◌, if◌then◌else◌, put,
}
use os_demand_paging.Paging.Entry.{Mem, Pt, pd_at, pt_at, put_pt}
use os_demand_paging.Paging.Frames.{page_size, num_ent_ppage}
use os_demand_paging.Kernel.{done, Code, ◌>>◌, set_proc, Kernel}
use os_demand_paging.Sleep.{sleep}

abbrev pub num_pages : ℕ → ℕ
num_pages nbytes =
    if nbytes % page_size != 0 then add32 (nbytes / page_size) 1 else nbytes / page_size

-- `temp_i`: the page table of row `i`
abbrev pub table_of : ℕ → ℕ
table_of i = if ltb i 4 then i else (if ltb i 8 then i - 4 else i - 8)

-- `check_bit` of an entry for row `i`
abbrev pub check_bit : ℕ → Pt → ℕ
check_bit i e = if ltb i 4 then e.pt_avail else (if ltb i 8 then e.pt_avail2 else e.pt_avail3)

-- `pt_base` of row `i`: the address of its page table
unfoldable pub row_base : Mem → ℕ → ℕ → ℕ
row_base m pdbr i = shl (pd_at m (add32 pdbr (4 * table_of i))).pd_base 12

-- The variables of the search.
pub record Scan : Type 0 where
  pub curr : ℕ
  pub flag : ℕ
  pub cnt : ℕ
  pub strt_i : ℕ
  pub strt_j : ℕ

-- The body of the inner loop, without its exit.
unfoldable pub scan_step : ℕ → ℕ → ℕ → Scan → Scan
scan_step i j bit s =
    if s.flag == 0
    then (if bit != 0
        then record s {
          strt_i = i;
          strt_j = j;
          curr = (i + 5) * num_ent_ppage + j;
          flag = 1;
          cnt = s.cnt + 1;
        }
        else s)
    else (if bit != 0 then record s { cnt = s.cnt + 1 } else record s { flag = 0; cnt = 0 })

-- The inner loop from entry `j` on, with the rounds left: the search and `j` at its exit.
unfoldable pub scan_row : Mem → ℕ → ℕ → ℕ → ℕ → ℕ → Scan → Scan × ℕ
scan_row m base num_pgs i zero j s = (s, j)
scan_row m base num_pgs i (suc n) j s =
    let s' = scan_step i j (check_bit i (pt_at m (base + 4 * j))) s in
    elim (s'.cnt == num_pgs) [ true ↦ (s', j) | false ↦ scan_row m base num_pgs i n (j + 1) s' ]

-- The outer loop from row `i` on: the search, `i` and `j` at its exit.
unfoldable pub scan_rows : Mem → ℕ → ℕ → ℕ → ℕ → Scan → Scan × ℕ × ℕ
scan_rows m pdbr num_pgs zero i s = (s, i, num_ent_ppage)
scan_rows m pdbr num_pgs (suc n) i s =
    let (s', j) = scan_row m (row_base m pdbr i) num_pgs i num_ent_ppage 0 s in
    elim (s'.cnt == num_pgs) [ true ↦ (s', i, j) | false ↦ scan_rows m pdbr num_pgs n (i + 1) s' ]

unfoldable pub scan : Mem → ℕ → ℕ → Scan × ℕ × ℕ
scan m pdbr num_pgs =
    scan_rows m pdbr num_pgs 12 0
      (record { curr = minus_one; flag = 0; cnt = 0; strt_i = 0; strt_j = 0 })

-- Memory, and `heap_size` and `swap_size` of the process.
pub record Sizes : Type 0 where
  pub mem : Mem
  pub heap_size : ℕ
  pub swap_size : ℕ

abbrev pub clear_bit : ℕ → Pt → Pt
clear_bit i e =
    if ltb i 4
    then record e { pt_avail = 0 }
    else (if ltb i 8 then record e { pt_avail2 = 0 } else record e { pt_avail3 = 0 })

-- One page is taken.
unfoldable pub mark_page : ℕ → ℕ → ℕ → Sizes → Sizes
mark_page base i j z =
    let pte = base + 4 * j in
    record {
      mem = put_pt z.mem pte (clear_bit i (pt_at z.mem pte));
      heap_size = if ltb i 4 then sub32 z.heap_size 1 else z.heap_size;
      swap_size = if ltb i 4 then z.swap_size else sub32 z.swap_size 1;
    }

unfoldable pub mark_row : ℕ → ℕ → ℕ → ℕ → Sizes → Sizes
mark_row base i zero j z = z
mark_row base i (suc n) j z = mark_row base i n (j + 1) (mark_page base i j z)

-- The rows from `strt_i` to `ci`: the first from `strt_j` on, the last up to `cj`.
unfoldable pub mark_rows : ℕ → ℕ → ℕ → ℕ → ℕ → ℕ → ℕ → Sizes → Sizes
mark_rows pdbr strt_i strt_j ci cj zero i z = z
mark_rows pdbr strt_i strt_j ci cj (suc n) i z =
    let start_cj = if i == strt_i then strt_j else 0 in
    let last_cj = if i == ci then cj + 1 else num_ent_ppage in
    mark_rows pdbr strt_i strt_j ci cj n (i + 1)
      (mark_row (row_base z.mem pdbr i) i (last_cj - start_cj) start_cj z)

-- What follows the search.
unfoldable pub mark : ℕ → Scan → ℕ → ℕ → Sizes → Sizes
mark pdbr s ci cj z = mark_rows pdbr s.strt_i s.strt_j ci cj (ci + 1 - s.strt_i) s.strt_i z

abbrev pub failed : Scan → ℕ → Bool
failed s num_pgs = s.curr == minus_one || s.cnt != num_pgs

-- The state after the pages are marked, under the caller's directory.
abbrev pub granted : Kernel → Sizes → Kernel
granted k z =
    let p = k.proctab k.currpid in
    record k {
      vm = record k.vm { mem = z.mem };
      proctab =
          put k.proctab k.currpid (record p { heap_size = z.heap_size; swap_size = z.swap_size });
      cr3 = p.pdbr;
    }

abbrev pub sizes_of : Kernel → Sizes
sizes_of k = record {
  mem = k.vm.mem;
  heap_size = (k.proctab k.currpid).heap_size;
  swap_size = (k.proctab k.currpid).swap_size;
}

-- The function after its call of `sleep`. The search reads and writes the page tables under the
-- directory of the null process, and ends under that of the caller.
unfoldable pub vmalloc_rest : ℕ → Code ℕ
vmalloc_rest nbytes k =
    let num_pgs = num_pages nbytes in
    let pdbr = (k.proctab k.currpid).pdbr in
    let (s, ci, cj) = scan k.vm.mem pdbr num_pgs in
    if failed s num_pgs
    then done (record k { cr3 = pdbr }) syserr
    else done (granted k (mark pdbr s ci cj (sizes_of k))) (shl s.curr 12)

unfoldable pub vmalloc : ℕ → Code ℕ
vmalloc nbytes = do sleep 1; vmalloc_rest nbytes

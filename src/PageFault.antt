-- ===== src/PageFault.antt =====
-- system/pagefault_handler.c. `Access` is about the test for a legal access, `SwapIn` about a page
-- that comes back from the swap area.
pub mod Access
pub mod SwapIn
use os_demand_paging.Base.{
  ℕ, ◌+◌, ◌*◌, ◌/◌, ◌%◌, Bool, ◌&&◌, ◌||◌, Table, put, add32, sub32, mul32, shl, shr, minus_one,
  syserr, ok, ltb, leb, ◌==◌, ◌!=◌, if◌then◌else◌, for_range, ◌^◌,
}
use os_demand_paging.Paging.Entry.{Mem, Pt, pd_at, pt_at}
use os_demand_paging.Paging.Fill.{set_pde, set_pte, init_pte_no_base}
use os_demand_paging.Paging.Frames.{
  page_size, max_swap_size, max_ffs_size, ffs_start, swap_start, page, pt_entry, ffs, Frame, Vm,
}
use os_demand_paging.Paging.Alloc.{Locals, get_phy_fr_num, copy_frame, holds_page}
use os_demand_paging.Kernel.{done, Code, pure, ◌>>◌}
use os_demand_paging.Kill.{kill}

-- What the uninitialised variables hold: the pointer `virt_addr`, and `check_bit`; and the locals
-- of the calls of `get_phy_fr_num`, for a page table frame and for an FFS frame.
pub record Garbage : Type 0 where
  pub virt_addr : ℕ
  pub check_bit : ℕ
  pub for_table : Locals
  pub for_frame : Locals

-- The offsets that the handler stores in the word at `virt_addr` and reads back from there: 10 bits
-- for the page table and 10 for the directory.
abbrev pub pt_offset : ℕ → ℕ
pt_offset ptr = shr (shl ptr 10) 22

abbrev pub pd_offset : ℕ → ℕ
pd_offset ptr = shr ptr 22

abbrev pub pg_offset : ℕ → ℕ
pg_offset ptr = shr (shl ptr 22) 22

-- `*virt_addr` after the three stores
abbrev pub virt_word : ℕ → ℕ
virt_word ptr = pg_offset ptr + 4096 * pt_offset ptr + 2 ^ 22 * pd_offset ptr

abbrev pub vheap_limit : ℕ
vheap_limit = (ffs_start + max_ffs_size) * page_size

-- `check_bit`, chosen by the directory offset less one
abbrev pub fault_bit : ℕ → Pt → ℕ → ℕ
fault_bit pd e unset =
    let row = sub32 pd 1 in
    if leb row 8
    then e.pt_avail
    else (if leb row 12 then e.pt_avail2 else (if leb row 16 then e.pt_avail3 else unset))

-- The entry in which the page's bit stands: `pte1`
unfoldable pub bit_addr : Mem → ℕ → ℕ → ℕ
bit_addr m pdbr ptr =
    let pde = add32 pdbr (4 * (sub32 (pd_offset ptr) 1 % 4)) in
    add32 (shl (pd_at m pde).pd_base 12) (4 * pt_offset ptr)

-- The last swap frame of the page: the loop does not stop at the first.
unfoldable pub last_swap : Table Frame → ℕ → ℕ → ℕ
last_swap t pid vpn =
    for_range max_swap_size 0
      (λ i sw. if holds_page pid vpn (t i) then (swap_start + i) * page_size else sw) minus_one

-- What the handler does once the access is legal: a new state, or `SYSERR` after which the process
-- is killed.
pub data Outcome : Type 0 where
  served : Vm → Outcome
  refused : Vm → Outcome

module _ (pdbrs : Table ℕ) (u : Garbage) (pid vpn pdbr ptr : ℕ) where
  -- The address of the directory entry: `pde + pd_offset`
  abbrev pub pde_addr : ℕ
  pde_addr = add32 pdbr (4 * pd_offset ptr)

  abbrev pub ffs_frame : Vm → Vm × ℕ
  ffs_frame s = get_phy_fr_num pdbrs s u.for_frame pid ffs page vpn

  -- A new page table, entered in the directory; the frame for the page is entered in the table.
  -- `heap` tells whether the heap pays for the frame.
  unfoldable pub new_table : Bool → Vm → Outcome
  new_table heap s0 =
      let s1 : Vm = record s0 {
        available_heap_size =
            if heap then sub32 s0.available_heap_size 1 else s0.available_heap_size;
      } in
      let (s2, pt_frame) = get_phy_fr_num pdbrs s1 u.for_table pid pt_entry page minus_one in
      let pte = mul32 pt_frame page_size in
      let m = (init_pte_no_base s2.mem pte).0 in
      let s3 : Vm = record s2 { mem = (set_pde m pde_addr pt_frame).0 } in
      let (s4, fr) = ffs_frame s3 in
      if fr == syserr
      then refused (record s4 {
        available_heap_size =
            if heap then add32 s4.available_heap_size 1 else s4.available_heap_size;
      })
      else served (record s4 {
        mem = (set_pte s4.mem (add32 pte (4 * pt_offset ptr)) fr).0;
        available_swap_size =
            if heap then s4.available_swap_size else sub32 s4.available_swap_size 1;
      })

  -- The page is in no swap frame: an FFS frame as it is. The test of the counters for less than
  -- zero, which no unsigned number is, never refuses.
  unfoldable pub first_touch : ℕ → Vm → Outcome
  first_touch pte s0 =
      let (s1, fr) = ffs_frame s0 in
      if fr == syserr
      then refused s1
      else (let none_left = s1.available_heap_size == 0 in
          served (record s1 {
            available_swap_size =
                if none_left then sub32 s1.available_swap_size 1 else s1.available_swap_size;
            available_heap_size =
                if none_left then s1.available_heap_size else sub32 s1.available_heap_size 1;
            mem = (set_pte s1.mem pte fr).0;
          }))

  -- The page is copied from its swap frame, at the address `sw_frame`. The entry is found by the
  -- offset that is read back through `virt_addr`.
  unfoldable pub swap_in : ℕ → ℕ → Vm → Outcome
  swap_in table sw_frame s0 =
      let (s1, fr) = ffs_frame s0 in
      if fr == syserr
      then refused s1
      else (let m = copy_frame s1.mem (sw_frame / page_size) fr in
          let offset = m (u.virt_addr / 4) / 4096 % 1024 in
          served (record s1 { mem = (set_pte m (add32 table (4 * offset)) fr).0 }))

  -- The table is there. Nothing is done if the page is present.
  unfoldable pub with_table : Vm → Outcome
  with_table s =
      let table = mul32 (pd_at s.mem pde_addr).pd_base page_size in
      let pte = add32 table (4 * pt_offset ptr) in
      let sw_frame = last_swap s.stab pid vpn in
      if (pt_at s.mem pte).pt_pres == 0
      then (if sw_frame == minus_one then first_touch pte s else swap_in table sw_frame s)
      else served s

  unfoldable pub serve : Vm → Outcome
  serve s =
      if (pd_at s.mem pde_addr).pd_pres == 0
      then (if s.available_heap_size == 0 && s.available_swap_size == 0
          then refused s
          else new_table (s.available_heap_size != 0) s)
      else with_table s

-- The end of the handler: the caller goes on under its own directory, or is killed.
unfoldable pub finish : ℕ → Outcome → Code ℕ
finish pdbr (served s) k = done (record k { vm = s; cr3 = pdbr }) ok
finish pdbr (refused s) k = (kill k.currpid >> pure syserr) (record k { vm = s; cr3 = pdbr })

unfoldable pub pagefault_handler : Garbage → Code ℕ
pagefault_handler u k =
    let ptr = k.cr2 in
    let pid = k.currpid in
    let pdbr = (k.proctab pid).pdbr in
    let s : Vm = record k.vm { mem = put k.vm.mem (u.virt_addr / 4) (virt_word ptr) } in
    let bit = fault_bit (pd_offset ptr) (pt_at s.mem (bit_addr s.mem pdbr ptr)) u.check_bit in
    if ltb vheap_limit u.virt_addr || bit != 0
    then finish pdbr (refused s) k
    else finish pdbr (serve (λ p. (k.proctab p).pdbr) u pid (shr ptr 12) pdbr ptr s) k

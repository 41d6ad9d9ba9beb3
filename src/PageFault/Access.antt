-- ===== src/PageFault/Access.antt =====
-- The test by which the handler tells a legal access from an illegal one, against the free bits
-- that `vmalloc` keeps.
use mathlib.Core.Path.{subst, ap₂}
use os_demand_paging.Base.{
  ℕ, ◌+◌, ◌*◌, ◌/◌, ◌%◌, ◌-◌, ◌≤◌, ◌<◌, ◌≡◌, ◌∙◌, ap, sym, false, arith, put, put_ne, if◌then◌else◌,
  ◌==◌, ◌!=◌, ltb, shl, shr, sub32, ◌||◌, inl, inr, Bool-cases,
}
use os_demand_paging.Paging.Entry.{Mem, Pt, pt_at, decode_pt, decode_pd}
use os_demand_paging.Paging.Frames.{pt_start, ffs_start, Vm}
use os_demand_paging.Kernel.{Kernel}
use os_demand_paging.Vmalloc.{row_base, check_bit, table_of}
use os_demand_paging.Vmalloc.Run.{page_bit, heap_pages}
use os_demand_paging.Vmalloc.Tables.{table, table-lt, table_of-lt, page_bit_word}
use os_demand_paging.Vmalloc.Grant.{pdbr_of}
use os_demand_paging.PageFault.{
  Garbage, pt_offset, pd_offset, virt_word, vheap_limit, fault_bit, bit_addr, refused, serve,
  finish, pagefault_handler,
}

-- An address in page `p` of the virtual heap.
abbrev pub address : ℕ → ℕ → ℕ
address p off = (p + 5120) * 4096 + off

-- The page tables of the process lie in the page table area, and the pointer `virt_addr`, which
-- nothing initialises, points below it.
pub record Placed (k : Kernel) (u : Garbage) : Type 0 where
  pub directory : pt_start * 4096 ≤ pdbr_of k
  pub directory_lt : pdbr_of k < ffs_start * 4096
  pub tables : (t : ℕ) → t < 4 → pt_start ≤ table k.vm.mem (pdbr_of k) t
  pub wild : u.virt_addr < pt_start * 4096

-- The state in which the handler makes its test.
abbrev pub stored : Kernel → Garbage → Vm
stored k u = record k.vm { mem = put k.vm.mem (u.virt_addr / 4) (virt_word k.cr2) }

offsets :
    (p off : ℕ)
    → p < heap_pages
    → off < 4096
    → (pd_offset (address p off) ≡ p / 1024 + 5)
      × (pt_offset (address p off) ≡ p % 1024)
      × (shr (address p off) 12 ≡ p + 5120)
offsets p off lp lo = omega arith

bit_addr-row_base :
    (m : Mem) (pdbr p off : ℕ)
    → p < heap_pages
    → off < 4096
    → bit_addr m pdbr (address p off) ≡ row_base m pdbr (p / 1024) + 4 * (p % 1024)
unfolding bit_addr row_base
bit_addr-row_base m pdbr p off lp lo =
    let row : sub32 (pd_offset (address p off)) 1 % 4 ≡ table_of (p / 1024) =
      column_table (p / 1024) (sub32 (pd_offset (address p off)) 1) (omega arith) (omega arith) in
    let col : pt_offset (address p off) ≡ p % 1024 = (offsets p off lp lo).1 in
    rw (row, col) (omega (arith, table-lt m pdbr (table_of (p / 1024))))
  where
    column_table : (i r : ℕ) → i < 12 → r ≡ i + 4 → r % 4 ≡ table_of i
    column_table i r li e = ground arith

-- The store through `virt_addr` changes no page table.
table-stored :
    (k : Kernel) (u : Garbage) (t : ℕ)
    → t < 4
    → Placed k u
    → table (stored k u).mem (pdbr_of k) t ≡ table k.vm.mem (pdbr_of k) t
table-stored k u t lt w =
    ap (λ x. (decode_pd x).pd_base)
      (put_ne k.vm.mem (u.virt_addr / 4) _ _ (omega (arith, w.directory, w.directory_lt, w.wild)))

page_bit-stored :
    (k : Kernel) (u : Garbage) (p : ℕ)
    → p < heap_pages
    → Placed k u
    → page_bit (stored k u).mem (pdbr_of k) p ≡ page_bit k.vm.mem (pdbr_of k) p
page_bit-stored k u p lp w =
    let t = table_of (p / 1024) in
    let lt = table_of-lt (p / 1024) (omega arith) in
    page_bit_word (stored k u).mem (pdbr_of k) p
    ∙ ap (λ f. check_bit (p / 1024) (decode_pt ((stored k u).mem (f * 1024 + p % 1024))))
        (table-stored k u t lt w)
    ∙ ap (λ v. check_bit (p / 1024) (decode_pt v))
        (put_ne k.vm.mem (u.virt_addr / 4) _ _ (omega (arith, w.tables t lt, w.wild)))
    ∙ sym (page_bit_word k.vm.mem (pdbr_of k) p)

-- The page whose free bit the handler reads for page `p`: its own, but in rows 4 and 8 that of the
-- page 4096 below.
abbrev pub tested_page : ℕ → ℕ
tested_page p = if p / 1024 == 4 || p / 1024 == 8 then p - 4096 else p

fault_bit_row :
    (i r : ℕ) (e : Pt) (c : ℕ)
    → i < 12
    → r ≡ (if i == 4 || i == 8 then i - 4 else i)
    → fault_bit (i + 5) e c ≡ check_bit r e
fault_bit_row i r e c li er = ground arith

tested_table :
    (i r : ℕ) → i < 12 → r ≡ (if i == 4 || i == 8 then i - 4 else i) → table_of r ≡ table_of i
tested_table i r li er = ground arith

tested_row :
    (p : ℕ)
    → tested_page p / 1024 ≡ (if p / 1024 == 4 || p / 1024 == 8 then p / 1024 - 4 else p / 1024)
tested_row p = ground arith

tested_bit :
    (m : Mem) (pdbr p off c : ℕ)
    → p < heap_pages
    → off < 4096
    → fault_bit (pd_offset (address p off)) (pt_at m (bit_addr m pdbr (address p off))) c
      ≡ page_bit m pdbr (tested_page p)
unfolding page_bit
tested_bit m pdbr p off c lp lo =
    let i = p / 1024 in
    let r = tested_page p / 1024 in
    let col : tested_page p % 1024 ≡ p % 1024 = ground arith in
    rw ((offsets p off lp lo).0, bit_addr-row_base m pdbr p off lp lo)
      (fault_bit_row i r (pt_at m (row_base m pdbr i + 4 * (p % 1024))) c (omega arith)
          (tested_row p)
        ∙ ap₂ (λ b j. check_bit r (pt_at m (b + 4 * j)))
            (unfold row_base in
              ap (λ t. shl (table m pdbr t) 12)
                (sym (tested_table i r (omega arith) (tested_row p))))
            (sym col))

-- For an address of the virtual heap the handler decides by the free bit of one page: it kills the
-- process if that bit is set, and goes on to serve the fault, which may still fail and kill the
-- process, if it is clear. This is for a process whose directory and tables lie in the page table area,
-- and for an uninitialised pointer `virt_addr` that happens to point below it. The page is the one at the
-- address, except in rows 4 and 8, the first 1024 pages behind each 4096, where it is the page that
-- lies 4096 below.
pub pagefault_handler_access :
    (k : Kernel) (u : Garbage) (p off : ℕ)
    → p < heap_pages
    → off < 4096
    → k.cr2 ≡ address p off
    → Placed k u
    → pagefault_handler u k
      ≡ finish
          (pdbr_of k)
          (if page_bit k.vm.mem (pdbr_of k) (tested_page p) != 0
            then refused (stored k u)
            else serve
                (λ q. (k.proctab q).pdbr)
                u
                k.currpid
                (p + 5120)
                (pdbr_of k)
                k.cr2
                (stored k u))
          k
unfolding pagefault_handler
pagefault_handler_access k u p off lp lo e w =
    let ok_pointer : ltb vheap_limit u.virt_addr ≡ false = ground (arith, w.wild) in
    let m = (stored k u).mem in
    let bit : fault_bit (pd_offset k.cr2) (pt_at m (bit_addr m (pdbr_of k) k.cr2)) u.check_bit
        ≡ page_bit k.vm.mem (pdbr_of k) (tested_page p) =
      subst
        (λ a.
          fault_bit (pd_offset a) (pt_at m (bit_addr m (pdbr_of k) a)) u.check_bit
          ≡ page_bit k.vm.mem (pdbr_of k) (tested_page p))
        (sym e)
        (tested_bit m (pdbr_of k) p off u.check_bit lp lo
          ∙ page_bit-stored k u (tested_page p) (ground arith) w) in
    let vpn : shr k.cr2 12 ≡ p + 5120 =
      subst (λ a. shr a 12 ≡ p + 5120) (sym e) (offsets p off lp lo).2 in
    elim (Bool-cases (page_bit k.vm.mem (pdbr_of k) (tested_page p) != 0)) [
      | inl set ↦ rw (ok_pointer, bit, set)
      | inr clear ↦ rw (ok_pointer, bit, clear, vpn)
    ]

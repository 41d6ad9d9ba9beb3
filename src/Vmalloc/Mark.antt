-- ===== src/Vmalloc/Mark.antt =====
-- What `vmalloc` writes: the free bits of the pages that it hands out, and no other.
use os_demand_paging.Vmalloc.Tables.{
  HasTables, row_word, HasTables-put, table_of-lt, clear-page_bit, table-put,
}
use mathlib.Core.Path.{subst}
use os_demand_paging.Vmalloc.Run.{heap_pages, page_bit}
use os_demand_paging.Base.{
  refl, zero, suc, ℕ, ◌+◌, ◌*◌, ◌<◌, ◌≡◌, sym, ap, arith, ◌==◌, if◌then◌else◌, false, leb, ◌&&◌,
  ltb, ◌≤◌, shl, suc, true, ◌-◌,
}
use os_demand_paging.Paging.Entry.{Mem}
use os_demand_paging.Vmalloc.{table_of, row_base, mark_page, mark_row, Sizes, mark_rows, mark, Scan}

-- The pages from `a` up to `n` have been taken since `m0`, and no other.
pub record Marked (m0 : Mem) (pdbr a n : ℕ) (m : Mem) : Type 0 where
  pub tables : HasTables m pdbr
  pub bits :
      (q : ℕ)
      → q < heap_pages
      → page_bit m pdbr q ≡ (if leb a q && ltb q n then 0 else page_bit m0 pdbr q)

-- One more page, and the page table of its row stays where it is.
mark_page-Marked :
    (m0 : Mem) (pdbr a i j n base : ℕ) (z : Sizes)
    → n ≡ i * 1024 + j
    → a ≤ n
    → i < 12
    → j < 1024
    → row_base z.mem pdbr i ≡ base
    → Marked m0 pdbr a n z.mem
    → Marked m0 pdbr a (n + 1) (mark_page base i j z).mem
      × (row_base (mark_page base i j z).mem pdbr i ≡ base)
unfolding mark_page
mark_page-Marked m0 pdbr a i j n base z e le li lj eb k =
    rw (← eb, row_word z.mem pdbr i j)
      (
        record {
          tables = HasTables-put z.mem pdbr (table_of i) j _ k.tables (table_of-lt i li) lj;
          bits = λ q lq.
              ground (arith, clear-page_bit z.mem pdbr i j q k.tables li lj lq, k.bits q lq);
        },
        unfold row_base in
            ap (λ t. shl t 12)
              (table-put z.mem pdbr (table_of i) (table_of i) j _ k.tables (table_of-lt i li)
                (table_of-lt i li) lj),
      )

mark_row-Marked :
    (m0 : Mem) (pdbr a i n j base : ℕ) (z : Sizes)
    → a ≤ i * 1024 + j
    → i < 12
    → j + n ≤ 1024
    → row_base z.mem pdbr i ≡ base
    → Marked m0 pdbr a (i * 1024 + j) z.mem
    → Marked m0 pdbr a (i * 1024 + (j + n)) (mark_row base i n j z).mem
unfolding mark_row
mark_row-Marked m0 pdbr a i zero j base z le li lj eb k =
    subst (λ c. Marked m0 pdbr a c z.mem) (omega arith) k
mark_row-Marked m0 pdbr a i (suc n) j base z le li lj eb k =
    let (k', eb') =
      mark_page-Marked m0 pdbr a i j (i * 1024 + j) base z refl le li (omega arith) eb k in
    subst (λ c. Marked m0 pdbr a c (mark_row base i n (j + 1) (mark_page base i j z)).mem)
      (omega arith)
      (mark_row-Marked m0 pdbr a i n (j + 1) base (mark_page base i j z) (omega arith) li
        (omega arith) eb'
        (subst (λ c. Marked m0 pdbr a c (mark_page base i j z).mem) (omega arith) k'))

module _ (m0 : Mem) (pdbr : ℕ) (strt_i strt_j ci cj : ℕ) where
  -- The column at which row `i` begins.
  abbrev from : ℕ → ℕ
  from i = if i == strt_i then strt_j else 0

  abbrev Through : ℕ → Mem → Type 0
  Through = Marked m0 pdbr (strt_i * 1024 + strt_j)

  mark_rows-Marked :
      (n i : ℕ) (z : Sizes)
      → strt_i * 1024 + strt_j ≤ ci * 1024 + cj
      → strt_j < 1024
      → cj < 1024
      → ci < 12
      → strt_i ≤ i
      → i + suc n ≡ ci + 1
      → Through (i * 1024 + from i) z.mem
      → Through (ci * 1024 + cj + 1) (mark_rows pdbr strt_i strt_j ci cj (suc n) i z).mem
  unfolding mark_rows
  mark_rows-Marked zero i z le lj lc li lo e k =
      let last : i ≡ ci = omega arith in
      let is_last : (i == ci) ≡ true = ground arith in
      let sum : i * 1024 + (from i + (cj + 1 - from i)) ≡ ci * 1024 + cj + 1 = ground arith in
      rw is_last (
        subst (λ c. Through c (mark_row (row_base z.mem pdbr i) i (cj + 1 - from i) (from i) z).mem)
          sum
          (mark_row-Marked m0 pdbr (strt_i * 1024 + strt_j) i (cj + 1 - from i) (from i) _ z
            (ground arith) (omega arith) (ground arith) refl k))
  mark_rows-Marked (suc n) i z le lj lc li lo e k =
      let not_last : (i == ci) ≡ false = ground arith in
      let sum : i * 1024 + (from i + (1024 - from i)) ≡ (i + 1) * 1024 + from (i + 1) =
        ground arith in
      let z' : Sizes = mark_row (row_base z.mem pdbr i) i (1024 - from i) (from i) z in
      subst
        (λ b.
          Through (ci * 1024 + cj + 1)
            (mark_rows pdbr strt_i strt_j ci cj (suc n) (i + 1) (
              mark_row (row_base z.mem pdbr i) i ((if b then cj + 1 else 1024) - from i) (from i)
                z)).mem)
        (sym not_last)
        (mark_rows-Marked n (i + 1) z' le lj lc li (omega arith) (omega arith) (
          subst (λ c. Through c z'.mem) sum
            (mark_row-Marked m0 pdbr (strt_i * 1024 + strt_j) i (1024 - from i) (from i) _ z
              (ground arith) (omega arith) (ground arith) refl k)))

-- The pages that `vmalloc` hands out, from the first of the run to the last, are taken; the free
-- bit of every other page of the virtual heap is as it was, and the page tables stay where they
-- are.
pub mark_lem :
    (pdbr ci cj : ℕ) (z : Sizes) (s : Scan)
    → s.strt_i * 1024 + s.strt_j ≤ ci * 1024 + cj
    → s.strt_j < 1024
    → cj < 1024
    → ci < 12
    → HasTables z.mem pdbr
    → Marked z.mem pdbr (s.strt_i * 1024 + s.strt_j) (ci * 1024 + cj + 1) (mark pdbr s ci cj z).mem
unfolding mark
mark_lem pdbr ci cj z s le lj lc li tables =
    let rounds : ci + 1 - s.strt_i ≡ suc (ci - s.strt_i) = omega arith in
    rw rounds (
      mark_rows-Marked z.mem pdbr s.strt_i s.strt_j ci cj (ci - s.strt_i) s.strt_i z le lj lc li
        (omega arith) (omega arith) (record { tables = tables; bits = λ q lq. ground arith }))

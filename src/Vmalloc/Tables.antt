-- ===== src/Vmalloc/Tables.antt =====
-- The page tables of a process, and a write of one free bit in them.
use native.Mathlib.Decide.{ℕ_discrete}
use mathlib.Core.Path.{ap₂}
use os_demand_paging.Vmalloc.Run.{heap_pages, page_bit}
use os_demand_paging.Base.{
  ℕ, ◌+◌, ◌*◌, ◌/◌, ◌^◌, ◌<◌, ◌≡◌, ◌≢◌, sym, ◌∙◌, ap, arith, ◌==◌, if◌then◌else◌, put, put_ne,
  add32, ◌%◌, false, ne→==, put_self,
}
use os_demand_paging.Paging.Entry.{
  Mem, Pt, pd_at, decode_pt, decode_pd, PtFits, decode_pt-Fits, encode_pt, decode-encode_pt,
}
use os_demand_paging.Vmalloc.{table_of, check_bit, clear_bit, row_base}

-- The frame of page table `t` of the directory at `pdbr`.
abbrev pub table : Mem → ℕ → ℕ → ℕ
table m pdbr t = (pd_at m (add32 pdbr (4 * t))).pd_base

-- The directory has four page tables, in frames of their own.
pub record HasTables (m : Mem) (pdbr : ℕ) : Type 0 where
  pub distinct : (t u : ℕ) → t < 4 → u < 4 → table m pdbr t ≡ table m pdbr u → t ≡ u
  pub apart : (t u : ℕ) → t < 4 → u < 4 → add32 pdbr (4 * t) / 4 / 1024 ≢ table m pdbr u

pub table-lt : (m : Mem) (pdbr t : ℕ) → table m pdbr t < 2 ^ 20
unfolding decode_pd
table-lt m pdbr t = omega arith

-- The word of the entry for column `j` of row `i`.
pub row_word :
    (m : Mem) (pdbr i j : ℕ)
    → (row_base m pdbr i + 4 * j) / 4 ≡ table m pdbr (table_of i) * 1024 + j
unfolding row_base
row_word m pdbr i j = omega (arith, table-lt m pdbr (table_of i))

pub table_of-lt : (i : ℕ) → i < 12 → table_of i < 4
table_of-lt i h = ground arith

-- A write to an entry of a table leaves the directory alone.
pub table-put :
    (m : Mem) (pdbr t u j v : ℕ)
    → HasTables m pdbr
    → t < 4
    → u < 4
    → j < 1024
    → table (put m (table m pdbr u * 1024 + j) v) pdbr t ≡ table m pdbr t
table-put m pdbr t u j v w lt lu lj =
    ap (λ x. (decode_pd x).pd_base)
      (put_ne m (table m pdbr u * 1024 + j) (add32 pdbr (4 * t) / 4) v
        (λ e. w.apart t u lt lu (omega arith)))

pub HasTables-put :
    (m : Mem) (pdbr u j v : ℕ)
    → HasTables m pdbr
    → u < 4
    → j < 1024
    → HasTables (put m (table m pdbr u * 1024 + j) v) pdbr
HasTables-put m pdbr u j v w lu lj = record {
  distinct = λ t t' lt lt' e.
      w.distinct t t' lt lt'
        (sym (table-put m pdbr t u j v w lt lu lj) ∙ e ∙ table-put m pdbr t' u j v w lt' lu lj);
  apart = λ t t' lt lt' e. w.apart t t' lt lt' (e ∙ table-put m pdbr t' u j v w lt' lu lj);
}

clear_bit-Fits : (i w : ℕ) → PtFits (clear_bit i (decode_pt w))
clear_bit-Fits i w = ground (arith, decode_pt-Fits w)

-- Of two rows that share a page table each has its own bit.
check-clear_bit :
    (i i' : ℕ) (e : Pt)
    → i < 12
    → i' < 12
    → table_of i ≡ table_of i'
    → check_bit i' (clear_bit i e) ≡ (if i' == i then 0 else check_bit i' e)
check-clear_bit i i' e li li' same = ground arith

pub page_bit_word :
    (m : Mem) (pdbr q : ℕ)
    → page_bit m pdbr q
      ≡ check_bit (q / 1024) (decode_pt (m (table m pdbr (table_of (q / 1024)) * 1024 + q % 1024)))
unfolding page_bit
page_bit_word m pdbr q =
    ap (λ a. check_bit (q / 1024) (decode_pt (m a))) (row_word m pdbr (q / 1024) (q % 1024))

-- A write of the entry of page `(i, j)`, as seen by page `q`.
pub clear-page_bit :
    (m : Mem) (pdbr i j q : ℕ)
    → HasTables m pdbr
    → i < 12
    → j < 1024
    → q < heap_pages
    → let a = table m pdbr (table_of i) * 1024 + j in
      page_bit (put m a (encode_pt (clear_bit i (decode_pt (m a))))) pdbr q
      ≡ (if q == i * 1024 + j then 0 else page_bit m pdbr q)
clear-page_bit m pdbr i j q w li lj lq = page_bit_word m' pdbr q ∙ moved ∙ seen (ℕ_discrete b a)
  where
    a : ℕ
    a = table m pdbr (table_of i) * 1024 + j

    b : ℕ
    b = table m pdbr (table_of (q / 1024)) * 1024 + q % 1024

    m' : Mem
    m' = put m a (encode_pt (clear_bit i (decode_pt (m a))))

    q_row : q / 1024 < 12
    q_row = omega arith

    moved :
        check_bit
          (q / 1024)
          (decode_pt (m' (table m' pdbr (table_of (q / 1024)) * 1024 + q % 1024)))
        ≡ check_bit (q / 1024) (decode_pt (m' b))
    moved =
        ap (λ t. check_bit (q / 1024) (decode_pt (m' (t * 1024 + q % 1024))))
          (table-put m pdbr (table_of (q / 1024)) (table_of i) j _ w (table_of-lt (q / 1024) q_row)
            (table_of-lt i li) lj)

    same_word : q ≡ i * 1024 + j → b ≡ a
    same_word h =
        let row : q / 1024 ≡ i = omega arith in
        let col : q % 1024 ≡ j = omega arith in
        ap₂ (λ r c. table m pdbr (table_of r) * 1024 + c) row col

    -- Another word.
    miss :
        b ≢ a
        → check_bit (q / 1024) (decode_pt (m' b))
          ≡ (if q == i * 1024 + j then 0 else page_bit m pdbr q)
    miss e =
        let other : (q == i * 1024 + j) ≡ false = ne→== _ _ (λ h. e (same_word h)) in
        rw other (
          ap (λ v. check_bit (q / 1024) (decode_pt v)) (put_ne m a b _ e)
          ∙ sym (page_bit_word m pdbr q))

    -- The same word, maybe for another row.
    hit :
        b ≡ a
        → table_of (q / 1024) ≡ table_of i
        → q % 1024 ≡ j
        → check_bit (q / 1024) (decode_pt (m' b))
          ≡ (if q == i * 1024 + j then 0 else page_bit m pdbr q)
    hit e same col =
        ap (λ x. check_bit (q / 1024) (decode_pt (m' x))) e
        ∙ ap (λ v. check_bit (q / 1024) (decode_pt v)) (put_self m a _)
        ∙ ap (check_bit (q / 1024))
            (decode-encode_pt (clear_bit i (decode_pt (m a))) (clear_bit-Fits i (m a)))
        ∙ check-clear_bit i (q / 1024) (decode_pt (m a)) li q_row (sym same)
        ∙ tests (
            ap (λ x. check_bit (q / 1024) (decode_pt (m x))) (sym e) ∙ sym (page_bit_word m pdbr q))
      where
        tests :
            check_bit (q / 1024) (decode_pt (m a)) ≡ page_bit m pdbr q
            → (if q / 1024 == i then 0 else check_bit (q / 1024) (decode_pt (m a)))
              ≡ (if q == i * 1024 + j then 0 else page_bit m pdbr q)
        tests g = ground (arith, g)

    seen :
        Dec (b ≡ a)
        → check_bit (q / 1024) (decode_pt (m' b))
          ≡ (if q == i * 1024 + j then 0 else page_bit m pdbr q)
    seen (yes e) =
        hit e
          (w.distinct (table_of (q / 1024)) (table_of i) (table_of-lt (q / 1024) q_row)
            (table_of-lt i li) (omega arith))
          (omega arith)
    seen (no e) = miss e

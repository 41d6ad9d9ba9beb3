-- ===== src/Vmalloc/Search.antt =====
-- The search of `vmalloc` against its specification, first fit over the free bits of the 12288
-- pages of the virtual heap.
use os_demand_paging.Vmalloc.Run.{
  Found, Searching, heap_pages, page_bit, IsRun, Stepped, start, step_lem,
}
use mathlib.Core.Path.{subst}
use native.Mathlib.Nat.{add_assoc, add-zero}
use os_demand_paging.Base.{
  sym, ==_iff, ne→==, ℕ, zero, suc, ◌+◌, ◌*◌, ◌/◌, ◌%◌, ◌≤◌, ◌<◌, ◌≡◌, ◌≢◌, refl, ◌⊎◌, inl, inr,
  true, false, arith, ◌==◌, Bool-cases, minus_one,
}
use os_demand_paging.Paging.Entry.{Mem, pt_at}
use os_demand_paging.Paging.Frames.{num_ent_ppage}
use os_demand_paging.Vmalloc.{
  Scan, check_bit, row_base, scan_step, scan_row, scan_rows, scan, failed,
}

-- How a loop over pages up to page `stop` ends: with a run, after the page at row `i` and column
-- `j`, or with none.
pub record Stops (bit : ℕ → ℕ) (num i j : ℕ) (s : Scan) : Type 0 where
  pub col_lt : j < 1024
  pub count : s.cnt ≡ num
  pub found : Found bit num (i * 1024 + j + 1) s

module _ (m : Mem) (pdbr num : ℕ) where
  abbrev bits : ℕ → ℕ
  bits = page_bit m pdbr

  page_bit_at :
      (i j n : ℕ)
      → n ≡ i * 1024 + j
      → j < 1024
      → check_bit i (pt_at m (row_base m pdbr i + 4 * j)) ≡ page_bit m pdbr n
  unfolding page_bit
  page_bit_at i j n e h =
      let e1 : n / 1024 ≡ i = omega arith in let e2 : n % 1024 ≡ j = omega arith in rw (e1, e2)

  scan_row_lem :
      (i n j : ℕ) (s : Scan)
      → 0 < num
      → j + n ≡ 1024
      → Searching bits num (i * 1024 + j) s
      → let r = scan_row m (row_base m pdbr i) num i n j s in
        Stops bits num i r.1 r.0 ⊎ ((r.0.cnt ≢ num) × Searching bits num (i * 1024 + 1024) r.0)
  unfolding scan_row
  scan_row_lem i zero j s pos e h =
      let e' : j ≡ 1024 = omega arith in
      inr (omega (arith, h.short), subst (λ c. Searching bits num (i * 1024 + c) s) e' h)
  scan_row_lem i (suc n) j s pos e h =
      let b = page_bit_at i j (i * 1024 + j) refl (omega arith) in
      let s' = scan_step i j (check_bit i (pt_at m (row_base m pdbr i + 4 * j))) s in
      let next : Stepped bits num (i * 1024 + j + 1) s' =
        subst (λ x. Stepped bits num (i * 1024 + j + 1) (scan_step i j x s)) (sym b)
          (step_lem bits num i j (i * 1024 + j) s refl (omega arith) pos h) in
      elim (Bool-cases (s'.cnt == num)) [
        | inl full ↦
            rw (full, scan_row)
              (inl (record {
                col_lt = omega arith;
                count = ground arith;
                found = next.0 (ground arith);
              }))
        | inr more ↦
            rw (more, scan_row)
              (scan_row_lem i n (j + 1) s' pos (omega arith) (
                subst (λ c. Searching bits num c s') (add_assoc (i * 1024) j 1)
                  (next.1 (ground arith))))
      ]

  scan_rows_lem :
      (n i : ℕ) (s : Scan)
      → 0 < num
      → i + n ≡ 12
      → Searching bits num (i * 1024) s
      → let r = scan_rows m pdbr num n i s in
        ((r.1 < 12) × Stops bits num r.1 r.2 r.0)
        ⊎ ((r.0.cnt ≢ num) × Searching bits num heap_pages r.0)
  unfolding scan_rows
  scan_rows_lem zero i s pos e h =
      let e' : i * 1024 ≡ heap_pages = omega arith in
      inr (omega (arith, h.short), subst (λ c. Searching bits num c s) e' h)
  scan_rows_lem (suc n) i s pos e h =
      let r = scan_row m (row_base m pdbr i) num i num_ent_ppage 0 s in
      elim (scan_row_lem i num_ent_ppage 0 s pos (omega arith)
        (subst (λ c. Searching bits num c s) (sym (add-zero (i * 1024))) h)) [
          | inl stops ↦
              let full : (r.0.cnt == num) ≡ true = (==_iff _ _).1 stops.count in
              rw (full, scan_rows) (inl (omega arith, stops))
          | inr (more, next) ↦
              let e' : (r.0.cnt == num) ≡ false = ne→== _ _ more in
              rw (e', scan_rows)
                (scan_rows_lem n (i + 1) r.0 pos (omega arith)
                  (subst (λ c. Searching bits num c r.0) (omega arith) next))
        ]

  -- Where the search ends.
  pub scan_lem :
      0 < num
      → let r = scan m pdbr num in
        ((r.1 < 12) × Stops bits num r.1 r.2 r.0)
        ⊎ ((r.0.cnt ≢ num) × Searching bits num heap_pages r.0)
  unfolding scan
  scan_lem pos =
      scan_rows_lem 12 0 (record { curr = minus_one; flag = 0; cnt = 0; strt_i = 0; strt_j = 0 })
        pos (omega arith)
        (record {
          no_run = λ p h. absurd (omega arith);
          short = pos;
          closed = λ _. (refl, inl refl);
          opened = λ h. absurd (h refl);
        })

  -- The search of `vmalloc` for one page or more is first fit: it fails exactly if no `num` free
  -- pages of the virtual heap follow one another; otherwise it ends at the last of the `num` pages
  -- that begin first, and `curr` is the number of the first of them, counted from page 5120.
  pub scan_first_fit :
      0 < num
      → let r = scan m pdbr num in
        ((failed r.0 num ≡ true) × ((p : ℕ) → p + num ≤ heap_pages → ¬ IsRun bits p num))
        ⊎ ((failed r.0 num ≡ false)
            × (start r.0 + num ≡ r.1 * 1024 + r.2 + 1)
            × (r.1 * 1024 + r.2 < heap_pages)
            × IsRun bits (start r.0) num
            × ((p : ℕ) → p < start r.0 → ¬ IsRun bits p num)
            × (r.0.curr ≡ start r.0 + 5120)
            × (r.0.strt_j < 1024)
            × (r.1 < 12)
            × (r.2 < 1024))
  scan_first_fit pos = elim (scan_lem pos) [
    | inl (lt, stops) ↦
        let f = stops.found in
        inr (
          ground (arith, f.curr, f.ends, stops.count, stops.col_lt),
          f.ends,
          omega (arith, stops.col_lt),
          f.run,
          f.first,
          f.curr,
          f.col,
          lt,
          stops.col_lt,
        )
    | inr (short, h) ↦ inl (ground (arith, short), h.no_run)
  ]

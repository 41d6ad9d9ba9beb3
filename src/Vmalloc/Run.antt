-- ===== src/Vmalloc/Run.antt =====
-- Runs of free pages, and one step of the search for them.
use native.Mathlib.Decide.{ℕ_discrete, dec_le, dec_lt}
use os_demand_paging.Base.{
  ℕ, ◌+◌, ◌*◌, ◌-◌, ◌/◌, ◌%◌, ◌≤◌, ◌<◌, ◌≡◌, ◌≢◌, refl, ◌⊎◌, inl, inr, true, arith, ◌==◌, ◌!=◌,
  Bool-cases,
}
use os_demand_paging.Paging.Entry.{Mem, pt_at}
use os_demand_paging.Vmalloc.{Scan, check_bit, row_base, scan_step}

abbrev pub heap_pages : ℕ
heap_pages = 12288

-- The free bit of page `p` of the virtual heap.
unfoldable pub page_bit : Mem → ℕ → ℕ → ℕ
page_bit m pdbr p = check_bit (p / 1024) (pt_at m (row_base m pdbr (p / 1024) + 4 * (p % 1024)))

-- `k` free pages from `p` on.
abbrev pub IsRun : (ℕ → ℕ) → ℕ → ℕ → Type 0
IsRun bit p k = (q : ℕ) → p ≤ q → q < p + k → bit q ≢ 0

-- The page at which the current run begins.
abbrev pub start : Scan → ℕ
start s = s.strt_i * 1024 + s.strt_j

-- The search stands at page `n`, and has found no run yet.
pub record Searching (bit : ℕ → ℕ) (num n : ℕ) (s : Scan) : Type 0 where
  pub no_run : (p : ℕ) → p + num ≤ n → ¬ IsRun bit p num
  pub short : s.cnt < num
  pub closed : s.flag ≡ 0 → (s.cnt ≡ 0) × ((n ≡ 0) ⊎ (bit (n - 1) ≡ 0))
  pub opened :
      s.flag ≢ 0
      → (start s + s.cnt ≡ n)
        × IsRun bit (start s) s.cnt
        × ((start s ≡ 0) ⊎ (bit (start s - 1) ≡ 0))
        × (s.curr ≡ start s + 5120)
        × (s.strt_j < 1024)

-- The run of `num` free pages that begins first; it ends before page `n`.
pub record Found (bit : ℕ → ℕ) (num n : ℕ) (s : Scan) : Type 0 where
  pub ends : start s + num ≡ n
  pub run : IsRun bit (start s) num
  pub first : (p : ℕ) → p < start s → ¬ IsRun bit p num
  pub curr : s.curr ≡ start s + 5120
  pub col : s.strt_j < 1024

module _ (bit : ℕ → ℕ) (num : ℕ) where
  -- No run of `num` pages contains a page that is not free, or begins before the maximal run.
  skip_used : (n : ℕ) → bit n ≡ 0 → (p : ℕ) → p ≤ n → n < p + num → ¬ IsRun bit p num
  skip_used n used p lo hi run = run n lo hi used

  no_run_before :
      (n b : ℕ)
      → (b ≡ 0) ⊎ (bit (b - 1) ≡ 0)
      → b ≤ n
      → (p : ℕ) → p < b
      → n ≤ p + num
      → ¬ IsRun bit p num
  no_run_before n b (inl z) le p lt hi = absurd (omega arith)
  no_run_before n b (inr used) le p lt hi = skip_used (b - 1) used p (omega arith) (omega arith)

  closed_after :
      (n : ℕ) (s : Scan)
      → bit n ≡ 0
      → 0 < num
      → ((p : ℕ) → p + num ≤ n → ¬ IsRun bit p num)
      → s.flag ≡ 0
      → s.cnt ≡ 0
      → Searching bit num (n + 1) s
  closed_after n s used pos none_yet flag cnt = record {
    no_run = λ p le. elim (dec_le (p + num) n) [
      | yes h ↦ none_yet p h
      | no h ↦ skip_used n used p (omega arith) (omega arith)
    ];
    short = omega arith;
    closed = λ _. (cnt, inr (rw (sub_one n) used));
    opened = λ h. absurd (h flag);
  }
    where
      sub_one : (n : ℕ) → n + 1 - 1 ≡ n
      sub_one n = omega arith

  -- The next page is not free.
  step_used :
      (i j n : ℕ) (s : Scan)
      → bit n ≡ 0
      → 0 < num
      → Searching bit num n s
      → Searching bit num (n + 1) (scan_step i j (bit n) s)
  unfolding scan_step
  step_used i j n s used pos h = elim (Bool-cases (s.flag == 0)) [
    | inl zero_flag ↦
        let f : s.flag ≡ 0 = ground arith in
        rw (zero_flag, used) (closed_after n s used pos h.no_run f (h.closed f).0)
    | inr flagged ↦ rw (flagged, used) (closed_after n _ used pos h.no_run refl refl)
  ]

  -- What the search has after a free page, at which the run that begins at `start s` ends.
  abbrev pub Stepped : ℕ → Scan → Type 0
  Stepped n s = (s.cnt ≡ num → Found bit num n s) × (s.cnt ≢ num → Searching bit num n s)

  opened_after :
      (n : ℕ) (s : Scan)
      → ((p : ℕ) → p + num ≤ n → ¬ IsRun bit p num)
      → s.flag ≢ 0
      → start s + s.cnt ≡ n + 1
      → s.cnt ≤ num
      → 0 < s.cnt
      → IsRun bit (start s) s.cnt
      → (start s ≡ 0) ⊎ (bit (start s - 1) ≡ 0)
      → s.curr ≡ start s + 5120
      → s.strt_j < 1024
      → Stepped (n + 1) s
  opened_after n s none_yet flag sum le pos run edge curr col = (
    λ full. record {
      ends = omega arith;
      run = λ q lo hi. run q lo (omega arith);
      first = λ p lt. none_yet p (omega arith);
      curr = curr;
      col = col;
    },
    λ more. record {
      no_run = λ p h. elim (dec_le (p + num) n) [
        | yes g ↦ none_yet p g
        | no g ↦ no_run_before (n + 1) (start s) edge (omega arith) p (omega arith) (omega arith)
      ];
      short = omega arith;
      closed = λ h. absurd (flag h);
      opened = λ _. (sum, run, edge, curr, col);
    },
  )

  run_snoc : (p k n : ℕ) → p + k ≡ n → bit n ≢ 0 → IsRun bit p k → IsRun bit p (k + 1)
  run_snoc p k n e free run q lo hi = elim (dec_lt q (p + k)) [
    | yes h ↦ run q lo h
    | no h ↦ let e' : q ≡ n = omega arith in rw e' free
  ]

  -- The next page is free.
  step_free :
      (i j n : ℕ) (s : Scan)
      → n ≡ i * 1024 + j
      → j < 1024
      → bit n ≢ 0
      → Searching bit num n s
      → Stepped (n + 1) (scan_step i j (bit n) s)
  unfolding scan_step
  step_free i j n s here col free h = elim (Bool-cases (s.flag == 0)) [
    | inl zero_flag ↦
        let f : s.flag ≡ 0 = ground arith in
        let c : s.cnt ≡ 0 = (h.closed f).0 in
        rw (zero_flag, is_set)
          (opened_after n _ h.no_run (omega arith) (omega arith) (omega (arith, h.short))
            (omega arith) (λ q lo hi. let e : q ≡ n = omega arith in rw e free)
            (rw (← here) (h.closed f).1) (omega arith) col)
    | inr flagged ↦
        let f : s.flag ≢ 0 = ground arith in
        let (sum, run, edge, curr, small) = h.opened f in
        rw (flagged, is_set)
          (opened_after n _ h.no_run f (omega arith) (omega (arith, h.short)) (omega arith)
            (run_snoc (start s) s.cnt n sum free run) edge curr small)
  ]
    where
      is_set : (bit n != 0) ≡ true
      is_set = ground arith

  pub step_lem :
      (i j n : ℕ) (s : Scan)
      → n ≡ i * 1024 + j
      → j < 1024
      → 0 < num
      → Searching bit num n s
      → Stepped (n + 1) (scan_step i j (bit n) s)
  step_lem i j n s e col pos h = elim (ℕ_discrete (bit n) 0) [
    | yes used ↦
        let next = step_used i j n s used pos h in
        (λ full. absurd (omega (arith, next.short)), λ _. next)
    | no free ↦ step_free i j n s e col free h
  ]

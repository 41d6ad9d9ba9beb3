-- ===== src/Vcreate/View.antt =====
-- The page tables of a process that `vcreate` makes, as the rest of the kernel reads them.
use os_demand_paging.Vmalloc.{table_of}
use os_demand_paging.Vmalloc.{check_bit}
use os_demand_paging.Paging.Fill.{empty_pd}
use os_demand_paging.Vcreate.Space.{decode-encode_pd}
use os_demand_paging.Vcreate.Rows.{user_pt, user_word, user_pt-Fits}
use os_demand_paging.Paging.Entry.{Mem, decode_pt, decode-encode_pt, pd_at, decode_pd, Pd}
use os_demand_paging.Paging.Frames.{Vm, pt_start, max_pt_size, ffs_start}
use os_demand_paging.Vcreate.Build.{Built}
use os_demand_paging.Vcreate.{Mem, Vm}
use os_demand_paging.Vmalloc.Tables.{HasTables, table, table_of-lt, page_bit_word}
use os_demand_paging.Vmalloc.Run.{heap_pages, page_bit}
use os_demand_paging.Base.{refl, ℕ, ◌≡◌, ◌+◌, ◌<◌, ◌≢◌, ◌*◌, ◌/◌, arith, ◌≤◌, add32, ◌%◌, ◌∙◌, ap}

-- The address of the directory in frame `d` of the page table area.
abbrev pub directory : ℕ → ℕ
directory d = (d + pt_start) * 4096

-- The directory in frame `d` names four tables in frames of the area. Together they map each page
-- below 4096 to the frame of the same number, present and writable, and nothing else is mapped. All
-- pages of the virtual heap are free.
pub record Space (d : ℕ) (m : Mem) : Type 0 where
  pub tables : HasTables m (directory d)
  pub above : (t : ℕ) → t < 4 → pt_start ≤ table m (directory d) t
  pub below : (t : ℕ) → t < 4 → table m (directory d) t < ffs_start
  pub maps :
      (pg : ℕ)
      → pg < 4096
      → decode_pt (m (table m (directory d) (pg / 1024) * 1024 + pg % 1024)) ≡ user_pt pg
  pub absent : (t : ℕ) → 4 ≤ t → t < 1024 → pd_at m (directory d + 4 * t) ≡ empty_pd
  pub free : (q : ℕ) → q < heap_pages → page_bit m (directory d) q ≡ 1

decode_zero : decode_pd 0 ≡ empty_pd
unfolding decode_pd
decode_zero = refl

user_pt-free : (i pg : ℕ) → check_bit i (user_pt pg) ≡ 1
user_pt-free i pg = ground arith

module _ (d : ℕ) (s0 s : Vm) (m : Mem) (d_lt : d < max_pt_size) (busy : (s0.ptab d).p_fm_isfree ≡ 0)
    (b : Built user_word d s0 4 s)
    (zeros : (t : ℕ) → t < 1024 → s0.mem ((d + pt_start) * 1024 + t) ≡ 0)
    (agree : (w : ℕ) → pt_start * 1024 ≤ w → w < ffs_start * 1024 → m w ≡ s.mem w) where
  table-f : (t : ℕ) → t < 4 → table m (directory d) t ≡ b.f t + pt_start
  table-f t h =
      let at : add32 (directory d) (4 * t) / 4 ≡ (d + pt_start) * 1024 + t = omega arith in
      let word = agree ((d + pt_start) * 1024 + t) (omega arith) (omega arith) ∙ b.entry t h in
      ap (λ x. (decode_pd x).pd_base) (ap m at ∙ word)
      ∙ ap (λ (x : Pd). x.pd_base) (decode-encode_pd (b.f t + pt_start) (omega (arith, b.f_lt t h)))

  not_dir : (t : ℕ) → t < 4 → b.f t ≢ d
  not_dir t h e = b.f_free t h (rw e busy)

  page-read :
      (t j : ℕ)
      → t < 4
      → j < 1024
      → decode_pt (m (table m (directory d) t * 1024 + j)) ≡ user_pt (t * 1024 + j)
  page-read t j h l =
      rw
        (
          table-f t h,
          agree ((b.f t + pt_start) * 1024 + j) (omega arith) (omega (arith, b.f_lt t h)),
          b.page t j h l,
        )
        (decode-encode_pt (user_pt (t * 1024 + j)) (user_pt-Fits (t * 1024 + j) (omega arith)))

  pub Built-Space : Space d m
  Built-Space = record {
    tables = record {
      distinct = λ t u ht hu e. b.distinct t u ht hu (omega (arith, table-f t ht, table-f u hu, e));
      apart = λ t u ht hu e. not_dir u hu (omega (arith, table-f u hu));
    };
    above = λ t h. omega (arith, table-f t h);
    below = λ t h. omega (arith, table-f t h, b.f_lt t h);
    maps = λ pg h.
        page-read (pg / 1024) (pg % 1024) (omega arith) (omega arith) ∙ ap user_pt (omega arith);
    absent = λ t lo hi.
        let at : (directory d + 4 * t) / 4 ≡ (d + pt_start) * 1024 + t = omega arith in
        let w = (d + pt_start) * 1024 + t in
        ap (λ x. decode_pd (m x)) at
        ∙ ap decode_pd (
            agree w (omega arith) (omega arith)
            ∙ b.kept w (λ u h e. not_dir u h (omega arith)) (λ u h. omega arith)
            ∙ zeros t hi)
        ∙ decode_zero;
    free = λ q h.
        let i = q / 1024 in
        let lt = table_of-lt i (omega arith) in
        page_bit_word m (directory d) q
        ∙ ap (check_bit i) (page-read (table_of i) (q % 1024) lt (omega arith))
        ∙ user_pt-free i (table_of i * 1024 + q % 1024);
  }

-- ===== src/Startup/Identity.antt =====
-- The address space of the null process.
use os_demand_paging.Startup.{kernel_space, add_kernel_table, total_pages}
use os_demand_paging.Startup.Tables.{kernel_pt, kernel_word, kernel_pt-Fits, kernel_tables-Built}
use os_demand_paging.Vcreate.Space.{free_pt, take_pt_frame-free, user_pd, decode-encode_pd}
use os_demand_paging.Vcreate.Build.{Built}
use os_demand_paging.Vcreate.Directory.{init_pde-Cleared}
use os_demand_paging.Vcreate.View.{directory}
use os_demand_paging.Vcreate.Result.{InUse}
use os_demand_paging.Vmalloc.Tables.{table}
use os_demand_paging.Paging.Alloc.Take.{IsFirstFree, pt_taken}
use os_demand_paging.Paging.Alloc.{Locals}
use os_demand_paging.Paging.Fill.{init_pde, empty_pd}
use os_demand_paging.Paging.Frames.{Vm, max_pt_size, pt_start, ffs_start, page_directory, page_size}
use os_demand_paging.Paging.Entry.{Mem, decode_pt, decode_pd, pd_at, decode-encode_pt}
use os_demand_paging.Base.{
  ◌∙◌, ap, refl, ℕ, ◌≡◌, ◌+◌, ◌<◌, ◌≢◌, ◌*◌, ◌/◌, ◌%◌, arith, ◌≤◌, mul32, add32, for_range,
}

-- The directory in frame `d` of the page table area names seventeen tables in frames of the area;
-- together they map each page below `total_pages` to the frame of the same number, present and writable,
-- and nothing else is mapped.
pub record IdentitySpace (d : ℕ) (m : Mem) : Type 0 where
  pub entries : (t : ℕ) → t < 17 → pd_at m (directory d + 4 * t) ≡ user_pd (table m (directory d) t)
  pub above : (t : ℕ) → t < 17 → pt_start ≤ table m (directory d) t
  pub below : (t : ℕ) → t < 17 → table m (directory d) t < ffs_start
  pub maps :
      (pg : ℕ)
      → pg < total_pages
      → decode_pt (m (table m (directory d) (pg / 1024) * 1024 + pg % 1024)) ≡ kernel_pt pg
  pub absent : (t : ℕ) → 17 ≤ t → t < 1024 → pd_at m (directory d + 4 * t) ≡ empty_pd

decode_zero : decode_pd 0 ≡ empty_pd
unfolding decode_pd
decode_zero = refl

module _ (d : ℕ) (s0 s : Vm) (d_lt : d < max_pt_size) (busy : (s0.ptab d).p_fm_isfree ≡ 0)
    (b : Built kernel_word d s0 17 s)
    (zeros : (t : ℕ) → t < 1024 → s0.mem ((d + pt_start) * 1024 + t) ≡ 0) where
  entry-f : (t : ℕ) → t < 17 → pd_at s.mem (directory d + 4 * t) ≡ user_pd (b.f t + pt_start)
  entry-f t h =
      let at : (directory d + 4 * t) / 4 ≡ (d + pt_start) * 1024 + t = omega arith in
      ap (λ w. decode_pd (s.mem w)) at
      ∙ ap decode_pd (b.entry t h)
      ∙ decode-encode_pd (b.f t + pt_start) (omega (arith, b.f_lt t h))

  table-f : (t : ℕ) → t < 17 → table s.mem (directory d) t ≡ b.f t + pt_start
  table-f t h =
      let at : add32 (directory d) (4 * t) ≡ directory d + 4 * t = omega arith in
      ap (λ a. (pd_at s.mem a).pd_base) at ∙ ap (λ e. e.pd_base) (entry-f t h)

  not_dir : (t : ℕ) → t < 17 → b.f t ≢ d
  not_dir t h e = b.f_free t h (rw e busy)

  page-read :
      (t j : ℕ)
      → t < 17
      → j < 1024
      → decode_pt (s.mem (table s.mem (directory d) t * 1024 + j)) ≡ kernel_pt (t * 1024 + j)
  page-read t j h l =
      rw (table-f t h, b.page t j h l)
        (decode-encode_pt (kernel_pt (t * 1024 + j)) (kernel_pt-Fits (t * 1024 + j) (omega arith)))

  Built-IdentitySpace : IdentitySpace d s.mem
  Built-IdentitySpace = record {
    entries = λ t h. rw (table-f t h) (entry-f t h);
    above = λ t h. omega (arith, table-f t h);
    below = λ t h. omega (arith, table-f t h, b.f_lt t h);
    maps = λ pg h.
        page-read (pg / 1024) (pg % 1024) (omega arith) (omega arith) ∙ ap kernel_pt (omega arith);
    absent = λ t lo hi.
        let at : (directory d + 4 * t) / 4 ≡ (d + pt_start) * 1024 + t = omega arith in
        let w = (d + pt_start) * 1024 + t in
        ap (λ x. decode_pd (s.mem x)) at
        ∙ ap decode_pd
            (b.kept w (λ u h e. not_dir u h (omega arith)) (λ u h. omega arith) ∙ zeros t hi)
        ∙ decode_zero;
  }

-- The state `s'` after `kernel_space`, with the directory in frame `d` of the area.
pub record KernelSpace (s : Vm) (d : ℕ) (s' : Vm) : Type 0 where
  pub first : IsFirstFree s.ptab max_pt_size d
  pub left : free_pt s' + 18 ≡ free_pt s
  pub kept : (w : ℕ) → InUse s w → s'.mem w ≡ s.mem w
  pub space : IdentitySpace d s'.mem

-- While eighteen frames of the page table area are free, `kernel_space` makes the directory in the first
-- of them.
pub kernel_space_lem :
    (u : ℕ → Locals) (pid : ℕ) (s : Vm)
    → 18 ≤ free_pt s
    → (d : ℕ) × (s' : Vm) × KernelSpace s d s' × (kernel_space u pid s ≡ (s', d + pt_start))
unfolding kernel_space
kernel_space_lem u pid s enough =
    let (d, f, e, cnt) = take_pt_frame-free s (u 0) pid page_directory (omega arith) in
    let t = pt_taken s d pid page_directory in
    let s1 : Vm = record t { mem = (init_pde s.mem ((d + pt_start) * 4096)).0 } in
    let small : mul32 (d + pt_start) page_size ≡ (d + pt_start) * 4096 =
      omega (arith, f.index_lt) in
    let busy : (s1.ptab d).p_fm_isfree ≡ 0 = ground arith in
    let b = kernel_tables-Built u pid d s1 busy (omega arith) in
    let s' = for_range 17 0 (add_kernel_table u pid ((d + pt_start) * 4096)) s1 in
    let cleared = init_pde-Cleared s.mem (d + pt_start) in
    (
      d,
      s',
      record {
        first = f;
        left = omega (arith, b.left);
        kept = λ w h.
            let out : w / 1024 ≢ d + pt_start = h d f.index_lt f.free in
            b.kept w (λ t l. h (b.f t) (b.f_lt t l) (λ z. b.f_free t l (ground (arith, z))))
              (λ t l e. out (omega arith))
            ∙ cleared w
            ∙ ground arith;
        space = Built-IdentitySpace d s1 s' f.index_lt busy b (λ i l. cleared _ ∙ ground arith);
      },
      rw (e, small) refl,
    )

-- ===== src/Vcreate/Result.antt =====
-- What `vcreate` gives a process: page tables, and a virtual heap.
use os_demand_paging.Paging.Fill.{init_pde}
use os_demand_paging.Paging.Entry.{Mem}
use os_demand_paging.Vcreate.Space.{free_pt, take_pt_frame-free}
use os_demand_paging.Paging.Alloc.Take.{IsFirstFree, pt_taken}
use os_demand_paging.Paging.Alloc.{Locals}
use os_demand_paging.Paging.Frames.{Vm, max_pt_size, pt_start, ffs_start, page_directory, page_size}
use os_demand_paging.Vcreate.View.{Space, Built-Space}
use os_demand_paging.Vcreate.{user_space, Locals, Vm, Mem, init_pde, add_table}
use os_demand_paging.Vcreate.Directory.{init_pde-Cleared, tables-Built}
use os_demand_paging.Base.{
  ◌∙◌, refl, ℕ, ◌≡◌, ◌+◌, ◌<◌, ◌≢◌, ◌*◌, ◌/◌, arith, ◌≤◌, mul32, for_range, ◌∙◌,
}

-- The word `w` is in no free frame of the page table area.
abbrev pub InUse : Vm → ℕ → Type 0
InUse s w = (i : ℕ) → i < max_pt_size → (s.ptab i).p_fm_isfree ≢ 0 → w / 1024 ≢ i + pt_start

-- The state `s'` after a process got its page tables, with the directory in frame `d` of the area.
pub record NewSpace (s : Vm) (d : ℕ) (s' : Vm) : Type 0 where
  pub first : IsFirstFree s.ptab max_pt_size d
  pub left : free_pt s' + 5 ≡ free_pt s
  pub used : (i : ℕ) → (s.ptab i).p_fm_isfree ≡ 0 → (s'.ptab i).p_fm_isfree ≡ 0
  pub kept : (w : ℕ) → InUse s w → s'.mem w ≡ s.mem w
  pub space :
      (m : Mem)
      → ((w : ℕ) → pt_start * 1024 ≤ w → w < ffs_start * 1024 → m w ≡ s'.mem w)
      → Space d m

-- While five frames of the page table area are free, the directory goes to the first of them. The
-- process gets a directory with four tables that map the pages below 4096 to the frames of the same
-- numbers and nothing else, and a virtual heap all of whose pages are free; this depends on no word
-- outside the page table area. Five frames fewer are free then; frames in use stay in use, and no
-- word changes but in frames that were free.
pub user_space_lem :
    (u : ℕ → Locals) (pid : ℕ) (s : Vm)
    → 5 ≤ free_pt s
    → (d : ℕ) × (s' : Vm) × NewSpace s d s' × (user_space u pid s ≡ (s', d + pt_start))
unfolding user_space
user_space_lem u pid s enough =
    let (d, f, e, cnt) = take_pt_frame-free s (u 0) pid page_directory (omega arith) in
    let t = pt_taken s d pid page_directory in
    let s1 : Vm = record t { mem = (init_pde s.mem ((d + pt_start) * 4096)).0 } in
    let small : mul32 (d + pt_start) page_size ≡ (d + pt_start) * 4096 =
      omega (arith, f.index_lt) in
    let busy : (s1.ptab d).p_fm_isfree ≡ 0 = ground arith in
    let b = tables-Built u pid d s1 busy f.index_lt (omega arith) in
    let s' = for_range 4 0 (add_table u pid ((d + pt_start) * 4096)) s1 in
    let cleared = init_pde-Cleared s.mem (d + pt_start) in
    (
      d,
      s',
      record {
        first = f;
        left = omega (arith, b.left);
        used = λ i h. b.old i (ground (arith, h));
        kept = λ w h.
            let out : w / 1024 ≢ d + pt_start = h d f.index_lt f.free in
            b.kept w (λ t l. h (b.f t) (b.f_lt t l) (λ z. b.f_free t l (ground (arith, z))))
              (λ t l e. out (omega arith))
            ∙ cleared w
            ∙ ground arith;
        space = λ m agree.
            Built-Space d s1 s' m f.index_lt busy b (λ i l. cleared _ ∙ ground arith) agree;
      },
      rw (e, small) refl,
    )

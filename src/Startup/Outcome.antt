-- ===== src/Startup/Outcome.antt =====
-- Paging as `sysinit` leaves it.
use os_demand_paging.Startup.{init_paging, kernel_space}
use os_demand_paging.Startup.Identity.{IdentitySpace, KernelSpace, kernel_space_lem}
use os_demand_paging.Vcreate.Space.{free_pt}
use os_demand_paging.Vcreate.View.{directory}
use os_demand_paging.Paging.Alloc.Take.{IsFirstFree}
use os_demand_paging.Paging.Alloc.{Locals, is_free}
use os_demand_paging.Paging.Frames.{
  Vm, Frame, free_frame, init_frames, max_pt_size, max_ffs_size, max_swap_size, pt_start, ffs_start,
  page_size,
}
use os_demand_paging.Paging.Entry.{Mem}
use os_demand_paging.Kernel.{Kernel}
use os_demand_paging.Base.{
  ◌∙◌, ap, refl, ℕ, ◌≡◌, ◌+◌, ◌<◌, ◌⊎◌, ◌/◌, arith, true, ◌≤◌, mul32, shl, shr, count_if_all,
  count_if_congr, sweep_lem,
}

init_frames-free : (s : Vm) (i : ℕ) → i < max_pt_size → ((init_frames s).0.ptab i) ≡ free_frame
unfolding init_frames
init_frames-free s i h =
    sweep_lem max_pt_size 0 max_pt_size (λ j f. free_frame) s.ptab i (omega arith) ∙ ground arith

init_frames-free_pt : (s : Vm) → free_pt (init_frames s).0 ≡ max_pt_size
init_frames-free_pt s =
    count_if_congr (is_free (init_frames s).0.ptab) (λ i. true) max_pt_size 0 max_pt_size
      (omega arith) (λ i lo hi. rw (init_frames-free s i hi) refl)
    ∙ count_if_all (λ i. true) max_pt_size 0 (λ i. refl)

first_zero : (s : Vm) (d : ℕ) → IsFirstFree (init_frames s).0.ptab max_pt_size d → d ≡ 0
first_zero s d f =
    let same = ap (λ (x : Frame). x.p_fm_isfree) (init_frames-free s 0 (omega arith)) in
    ground (arith, f.before 0, same)

init_frames-mem : (s : Vm) → (init_frames s).0.mem ≡ s.mem
unfolding init_frames
init_frames-mem s = refl

-- The kernel `k'` after paging was set up in `k`.
pub record PagingOn (k k' : Kernel) : Type 0 where
  pub space : IdentitySpace 0 k'.vm.mem
  pub cr3 : k'.cr3 ≡ directory 0
  pub pdbr : (k'.proctab k.currpid).pdbr ≡ directory 0
  pub left : free_pt k'.vm + 18 ≡ max_pt_size
  pub kept : (w : ℕ) → (w / 1024 < pt_start) ⊎ (ffs_start ≤ w / 1024) → k'.vm.mem w ≡ k.vm.mem w

-- The state in which the frames are set up.
abbrev sized : Vm → Vm
sized s = record s {
  available_heap_size = max_ffs_size;
  available_swap_size = max_swap_size;
  latency = 0;
}

space-PagingOn :
    (u : ℕ → Locals) (k : Kernel) (d : ℕ) (s' : Vm)
    → d ≡ 0
    → kernel_space u k.currpid (init_frames (sized k.vm)).0 ≡ (s', d + pt_start)
    → KernelSpace (init_frames (sized k.vm)).0 d s'
    → PagingOn k (init_paging u k)
unfolding init_paging
space-PagingOn u k d s' zero e n =
    let address : shl (shr (mul32 (d + pt_start) page_size) 12) 12 ≡ directory 0 = omega arith in
    rw (e, address)
      (record {
        space = rw (← zero) n.space;
        cr3 = refl;
        pdbr = ground arith;
        left = n.left ∙ init_frames-free_pt (sized k.vm);
        kept = λ w out.
            n.kept w (λ i l free at. ground (arith, out))
            ∙ ap (λ (m : Mem). m w) (init_frames-mem (sized k.vm));
      })

-- `init_paging` of `sysinit` succeeds whatever the state was. The directory of the running process
-- is the first frame of the page table area, and `cr3` holds its address. It maps each of the
-- 17408 pages to the frame of the same number, present and writable, and nothing else; its tables
-- are in the page table area, of which eighteen frames are in use then, and no word outside of
-- that area changes.
pub init_paging-PagingOn : (u : ℕ → Locals) (k : Kernel) → PagingOn k (init_paging u k)
init_paging-PagingOn u k =
    let enough = init_frames-free_pt (sized k.vm) in
    let (d, s', n, e) =
      kernel_space_lem u k.currpid (init_frames (sized k.vm)).0 (omega (arith, enough)) in
    space-PagingOn u k d s' (first_zero (sized k.vm) d n.first) e n

-- ===== src/Vfree/Result.antt =====
-- What `vfree` does to the frames and the counters.
use mathlib.Core.Path.{subst, sym}
use os_demand_paging.Vmalloc.Grant.{pdbr_of}
use os_demand_paging.Vmalloc.{num_pages}
use os_demand_paging.Paging.Frames.{ffs_start, max_swap_size, page_size, swap_end}
use os_demand_paging.Kernel.{Kernel, done}
use os_demand_paging.Vfree.Swap.{holds, Swept, free_frames-Swept}
use os_demand_paging.Vfree.{
  vfree_body, returned, free_bits, free_pte, Kernel, ffs_start, max_swap_size, page_size, Freeing,
  free_frames, vfree,
}
use os_demand_paging.Base.{
  refl, suc, if◌then◌else◌, ◌-◌, ℕ, ◌≡◌, ◌+◌, ◌<◌, ◌≢◌, ◌*◌, ◌&&◌, ltb, ◌/◌, ◌==◌, arith, ◌||◌,
  Bool, ◌^◌, count_if, minus_one, ◌%◌, sym, count_if_empty, true, syserr, ◌⊎◌, false, ok,
  Bool-cases, inl, inr,
}

-- The arguments that `vfree` refuses.
abbrev pub refuses : ℕ → ℕ → Bool
refuses ptr nbytes =
    nbytes == 0 || ltb ptr (ffs_start * page_size) || ltb (swap_end * page_size) ptr

-- The swap frames of the current process for the page at `ptr`.
abbrev pub released : Kernel → ℕ → ℕ
released k ptr = count_if (holds k.currpid ptr k.vm) max_swap_size 0

-- The kernel `k'` after `vfree` of some bytes at `ptr` in `k`.
pub record Freed (k : Kernel) (ptr nbytes : ℕ) (k' : Kernel) : Type 0 where
  pub stab :
      (i : ℕ)
      → k'.vm.stab i ≡ (
          if ltb i max_swap_size && holds k.currpid ptr k.vm i
          then returned (k.vm.stab i)
          else k.vm.stab i)
  pub ftab : k'.vm.ftab ≡ k.vm.ftab
  pub ptab : k'.vm.ptab ≡ k.vm.ptab
  pub available_heap_size : k'.vm.available_heap_size ≡ k.vm.available_heap_size
  pub available_swap_size :
      k'.vm.available_swap_size % 2 ^ 32 ≡ (k.vm.available_swap_size + released k ptr) % 2 ^ 32
  pub swap_size :
      (k'.proctab k.currpid).swap_size % 2 ^ 32
      ≡ ((k.proctab k.currpid).swap_size + released k ptr) % 2 ^ 32
  pub heap_size :
      ((k'.proctab k.currpid).heap_size + released k ptr) % 2 ^ 32
      ≡ ((k.proctab k.currpid).heap_size + num_pages nbytes) % 2 ^ 32
  pub others : (p : ℕ) → p ≢ k.currpid → k'.proctab p ≡ k.proctab p
  pub current : (k'.currpid ≡ k.currpid) × (pdbr_of k' ≡ pdbr_of k) × (k'.cr3 ≡ pdbr_of k)
  pub mem :
      released k ptr ≡ 0
      → k'.vm.mem ≡ free_bits (nbytes / page_size) 0 (free_pte k.vm.mem (pdbr_of k) ptr) k.vm.mem

pages-suc :
    (nbytes : ℕ) → 0 < nbytes → nbytes < 2 ^ 32 → num_pages nbytes ≡ suc (num_pages nbytes - 1)
pages-suc nbytes h l = ground arith

vfree_body-Freed :
    (ptr nbytes : ℕ) (k : Kernel)
    → 0 < nbytes
    → nbytes < 2 ^ 32
    → k.currpid < minus_one
    → Freed k ptr nbytes (vfree_body ptr nbytes k)
unfolding vfree_body
vfree_body-Freed ptr nbytes k pos fits c =
    let m = free_bits (nbytes / page_size) 0 (free_pte k.vm.mem (pdbr_of k) ptr) k.vm.mem in
    let z0 : Freeing = record {
      vm = record k.vm { mem = m };
      heap_size = (k.proctab k.currpid).heap_size;
      swap_size = (k.proctab k.currpid).swap_size;
      flag = num_pages nbytes;
    } in
    let words : z0.flag < 2 ^ 32 = ground arith in
    let s =
      subst (λ n. Swept k.currpid ptr z0 max_swap_size (free_frames k.currpid (pdbr_of k) ptr n z0))
        (sym (pages-suc nbytes pos fits))
        (free_frames-Swept k.currpid (pdbr_of k) ptr (num_pages nbytes - 1) z0 c words) in
    record {
      stab = s.stab;
      ftab = s.rest.0;
      ptab = s.rest.1;
      available_heap_size = s.rest.2;
      available_swap_size = s.available;
      swap_size = ground (arith, s.swap_size);
      heap_size = ground (arith, s.flag, s.rest.3, s.flag_lt);
      others = λ p h. ground arith;
      current = (refl, ground arith, refl);
      mem = λ h.
          s.mem
            (λ i l. count_if_empty (holds k.currpid ptr k.vm) max_swap_size 0 i h (omega arith) l);
    }

-- `vfree` refuses no bytes and an address outside of the frames from the FFS area to the end of the swap
-- area, and then changes nothing but `cr3`. Otherwise it succeeds. Of the frames it gives back those
-- of the swap area that hold the first page for the process, and no other: no frame of the FFS area is
-- given back, and `available_heap_size` stays. The counter of swap pages of the process goes up by
-- the number of these frames, and that of heap pages by the number of pages less these frames. No other
-- entry of the process table changes.
pub vfree_lem :
    (ptr nbytes : ℕ) (k : Kernel)
    → nbytes < 2 ^ 32
    → k.currpid < minus_one
    → ((refuses ptr nbytes ≡ true)
        × (vfree ptr nbytes k ≡ done (record k { cr3 = pdbr_of k }) syserr))
      ⊎ ((refuses ptr nbytes ≡ false)
          × ((k' : Kernel) × Freed k ptr nbytes k' × (vfree ptr nbytes k ≡ done k' ok)))
unfolding vfree
vfree_lem ptr nbytes k fits c = elim (Bool-cases (refuses ptr nbytes)) [
  | inl bad ↦ inl (bad, rw bad refl)
  | inr good ↦ inr (
    good,
    (vfree_body ptr nbytes k, vfree_body-Freed ptr nbytes k (ground arith) fits c, rw good refl),
  )
]

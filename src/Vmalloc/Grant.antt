-- ===== src/Vmalloc/Grant.antt =====
-- The contract of `vmalloc`.
use os_demand_paging.Base.{
  ℕ, ◌+◌, ◌*◌, ◌^◌, ◌≤◌, ◌<◌, ◌≡◌, refl, ◌⊎◌, inl, inr, arith, syserr, sym, ap,
}
use mathlib.Core.Path.{subst}
use os_demand_paging.Kernel.{Kernel, done}
use os_demand_paging.Vmalloc.{Sizes, num_pages, scan, mark, granted, sizes_of, vmalloc_rest}
use os_demand_paging.Vmalloc.Run.{heap_pages, page_bit, IsRun, start}
use os_demand_paging.Vmalloc.Search.{scan_first_fit}
use os_demand_paging.Vmalloc.Tables.{HasTables}
use os_demand_paging.Vmalloc.Mark.{Marked, mark_lem}

abbrev pub pdbr_of : Kernel → ℕ
pdbr_of k = (k.proctab k.currpid).pdbr

-- The grant of `num` pages from page `a` of the virtual heap on: the first that are free.
pub record Grant (k : Kernel) (num a : ℕ) (k' : Kernel) : Type 0 where
  pub within : a + num ≤ heap_pages
  pub was_free : IsRun (page_bit k.vm.mem (pdbr_of k)) a num
  pub first : (p : ℕ) → p < a → ¬ IsRun (page_bit k.vm.mem (pdbr_of k)) p num
  pub marked : Marked k.vm.mem (pdbr_of k) a (a + num) k'.vm.mem
  pub same : (z : Sizes) × (k' ≡ granted k z)

num_pages-pos : (nbytes : ℕ) → 0 < nbytes → nbytes < 2 ^ 32 → 0 < num_pages nbytes
num_pages-pos nbytes pos fits = ground arith

-- Once it runs again after its sleep, `vmalloc` of one byte or more, in a process with four page
-- tables, returns `SYSERR` and leaves memory as it is if the virtual heap does not have enough free
-- pages in a row. Otherwise it returns the address of the first such run of pages, and exactly
-- these pages are taken in the page tables; no other variable of the kernel changes but the two
-- size counters of the process and `cr3`.
pub vmalloc_rest_lem :
    (nbytes : ℕ) (k : Kernel)
    → 0 < nbytes
    → nbytes < 2 ^ 32
    → HasTables k.vm.mem (pdbr_of k)
    → (((p : ℕ)
          → p + num_pages nbytes ≤ heap_pages
          → ¬ IsRun (page_bit k.vm.mem (pdbr_of k)) p (num_pages nbytes))
        × (vmalloc_rest nbytes k ≡ done (record k { cr3 = pdbr_of k }) syserr))
      ⊎ ((a : ℕ) × (k' : Kernel) × Grant k (num_pages nbytes) a k'
          × (vmalloc_rest nbytes k ≡ done k' ((a + 5120) * 4096)))
unfolding vmalloc_rest
vmalloc_rest_lem nbytes k pos fits tables =
    elim (scan_first_fit k.vm.mem (pdbr_of k) (num_pages nbytes) (num_pages-pos nbytes pos fits)) [
      | inl (fail, none) ↦ inl (none, rw fail)
      | inr (found, ends, within, run, first, curr, lj, li, lc) ↦
          let r = scan k.vm.mem (pdbr_of k) (num_pages nbytes) in
          inr (
            start r.0,
            granted k (mark (pdbr_of k) r.0 r.1 r.2 (sizes_of k)),
            record {
              within = omega arith;
              was_free = run;
              first = first;
              marked =
                  subst
                    (λ c.
                      Marked k.vm.mem (pdbr_of k) (start r.0) c
                        (mark (pdbr_of k) r.0 r.1 r.2 (sizes_of k)).mem)
                    (sym ends)
                    (mark_lem (pdbr_of k) r.1 r.2 (sizes_of k) r.0
                      (omega (arith, num_pages-pos nbytes pos fits)) lj lc li tables);
              same = (_, refl);
            },
            rw found (
                ap (λ v. done (granted k (mark (pdbr_of k) r.0 r.1 r.2 (sizes_of k))) v)
                  (omega arith)),
          )
    ]

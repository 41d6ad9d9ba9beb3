-- ===== src/Vcreate/Heap.antt =====
-- The virtual heap of a process that `vcreate` has made, and the first call of `vmalloc` in it.
use os_demand_paging.Vmalloc.Tables.{HasTables}
use os_demand_paging.Process.{Procent}
use os_demand_paging.Vmalloc.{num_pages, vmalloc_rest}
use os_demand_paging.Vmalloc.Grant.{Grant, pdbr_of, vmalloc_rest_lem}
use os_demand_paging.Vmalloc.Run.{heap_pages, IsRun, page_bit}
use os_demand_paging.FreeList.{getmem}
use mathlib.Core.Path.{subst}
use os_demand_paging.Vcreate.View.{Space, directory}
use os_demand_paging.Vcreate.Space.{free_pt}
use os_demand_paging.Paging.Alloc.{Locals}
use os_demand_paging.Paging.Alloc.Take.{IsFirstFree}
use os_demand_paging.Paging.Entry.{Mem}
use os_demand_paging.Paging.Frames.{pt_start, ffs_start, page_size, max_ffs_size, max_pt_size}
use os_demand_paging.Kernel.{Kernel, done}
use os_demand_paging.Paging.Bytes.{load, store, store-aligned, load-aligned}
use os_demand_paging.Vcreate.Result.{InUse, user_space_lem}
use os_demand_paging.Vcreate.{heap_list, Kernel, load, Mem, Locals, add_space, getmem, Procent}
use os_demand_paging.Base.{
  zero, suc, inl, inr, ◌⊎◌, sym, ap, ◌||◌, refl, if◌then◌else◌, ℕ, ◌≡◌, ◌+◌, ◌*◌, ◌/◌, ◌==◌, arith,
  ◌≤◌, ◌∙◌, ◌%◌, ◌||◌, add32, put, put_self, Bool, ◌<◌, false, shl, ◌≢◌,
}

-- A list node in kernel memory at `a`: a multiple of 4 below the page table area.
pub record Node (a : ℕ) : Type 0 where
  pub aligned : a % 4 ≡ 0
  pub below : a + 8 ≤ pt_start * 4096

-- The list is written to the node and to the first two words of the FFS area.
pub heap_list_mem :
    (m : Mem) (a w : ℕ)
    → Node a
    → heap_list m a w ≡ (
        if w == ffs_start * 1024
        then 0
        else (if w == ffs_start * 1024 + 1 || w == a / 4 + 1
            then page_size * max_ffs_size
            else (if w == a / 4 then ffs_start * page_size else m w)))
unfolding heap_list
heap_list_mem m a w n =
    let first = ffs_start * page_size in
    let len = page_size * max_ffs_size in
    let z : a % 4 ≡ 0 = n.aligned in
    let next : add32 a 4 % 4 ≡ 0 = omega (arith, n.aligned, n.below) in
    let word : add32 a 4 / 4 ≡ a / 4 + 1 = omega (arith, n.aligned, n.below) in
    let m2 = put (put m (a / 4 + 1) len) (a / 4) first in
    let two : store (store m (add32 a 4) len) a first ≡ m2 =
      store-aligned (store m (add32 a 4) len) a first z
      ∙ rw (store-aligned m (add32 a 4) len next, word) refl in
    let to : load m2 a ≡ first =
      load-aligned m2 a z ∙ put_self (put m (a / 4 + 1) len) (a / 4) first in
    let end : store (store m2 (add32 first 4) len) first 0
        ≡ put (put m2 (first / 4 + 1) len) (first / 4) 0 =
      store-aligned (store m2 (add32 first 4) len) first 0 refl
      ∙ rw (store-aligned m2 (add32 first 4) len refl) refl in
    rw (two, to, end) (ground (arith, n.below))

-- The words of the list.
abbrev pub list_word : ℕ → ℕ → Bool
list_word a w = w == a / 4 || w == a / 4 + 1 || w == ffs_start * 1024 || w == ffs_start * 1024 + 1

-- The kernel after `add_space`, with the directory in frame `d` of the area and the node at `a`.
pub record Added (k : Kernel) (pid d a : ℕ) (k' : Kernel) : Type 0 where
  pub first : IsFirstFree k.vm.ptab max_pt_size d
  pub left : free_pt k'.vm + 5 ≡ free_pt k.vm
  pub used : (i : ℕ) → (k.vm.ptab i).p_fm_isfree ≡ 0 → (k'.vm.ptab i).p_fm_isfree ≡ 0
  pub space : Space d k'.vm.mem
  pub kept : (w : ℕ) → InUse k.vm w → list_word a w ≡ false → k'.vm.mem w ≡ k.vm.mem w
  pub wiped : k'.vm.mem (ffs_start * 1024) ≡ 0
  pub entry : k'.proctab pid ≡ record (k.proctab pid) { pdbr = directory d; v_freelist = a }
  pub others : (p : ℕ) → p ≢ pid → k'.proctab p ≡ k.proctab p
  pub current : (k'.currpid ≡ k.currpid) × (k'.cr3 ≡ directory d)

-- What `vcreate` does behind the stack. While five frames of the page table area are free, and the
-- list node from `getmem` is a multiple of 4 below the area: the process gets a directory with four
-- tables and a virtual heap whose pages are all free, its entry names the directory and the node, and
-- no other entry of the process table changes. Frames in use stay in use, and their words are left,
-- but for those of the list: the first two words of the FFS area are written, and the first
-- becomes 0, whichever process has a page there. The call ends under the new directory.
pub add_space_lem :
    (u : ℕ → Locals) (pid : ℕ) (k : Kernel)
    → 5 ≤ free_pt k.vm
    → Node (getmem k.memory 8).1
    → (d : ℕ) × Added k pid d (getmem k.memory 8).1 (add_space u pid k)
unfolding add_space
add_space_lem u pid k enough node =
    let (d, s', n, e) = user_space_lem u pid k.vm enough in
    let a = (getmem k.memory 8).1 in
    let small : shl (d + pt_start) 12 ≡ (d + pt_start) * 4096 = omega (arith, n.first.index_lt) in
    let mem = λ (w : ℕ). heap_list_mem s'.mem a w node in
    (
      d,
      rw (e, small)
          (record {
            first = n.first;
            left = n.left;
            used = n.used;
            space = n.space (heap_list s'.mem a) (λ w lo hi. mem w ∙ ground (arith, node.below));
            kept = λ w h l. mem w ∙ ground (arith, n.kept w h);
            wiped = mem (ffs_start * 1024) ∙ ground arith;
            entry = ground arith;
            others = λ p h. ground arith;
            current = (refl, refl);
          }),
    )

-- The new process runs.
abbrev pub run : ℕ → Kernel → Kernel
run pid k = record k { currpid = pid }

-- If five page table frames are free and `getmem` returns the address of a node that is a multiple
-- of 4 and lies below the page table area when `vcreate` makes the address space of a new process, and
-- the process runs in just the state that this leaves, then its first `vmalloc`, once it runs again
-- after its sleep, succeeds for every size from one byte to that of the virtual heap, and returns the
-- lowest address of the heap. The heap was free, and exactly the pages asked for are taken. `vcreate`
-- tests neither of the two conditions.
pub first_vmalloc :
    (u : ℕ → Locals) (pid nbytes : ℕ) (k : Kernel)
    → 5 ≤ free_pt k.vm
    → Node (getmem k.memory 8).1
    → 0 < nbytes
    → nbytes ≤ heap_pages * page_size
    → (k' : Kernel) × Grant (run pid (add_space u pid k)) (num_pages nbytes) 0 k'
      × (vmalloc_rest nbytes (run pid (add_space u pid k)) ≡ done k' (ffs_start * page_size))
first_vmalloc u pid nbytes k enough node pos fits =
    let (d, new) = add_space_lem u pid k enough node in
    let k1 = run pid (add_space u pid k) in
    let pd : pdbr_of k1 ≡ directory d = ap (λ (p : Procent). p.pdbr) new.entry in
    let few : num_pages nbytes ≤ heap_pages = ground arith in
    let all_free : IsRun (page_bit k1.vm.mem (pdbr_of k1)) 0 (num_pages nbytes) =
      λ q lo hi. rw pd (λ z. one (sym (new.space.free q (omega arith)) ∙ z)) in
    elim (vmalloc_rest_lem nbytes k1 pos (omega arith)
      (subst (HasTables k1.vm.mem) (sym pd) new.space.tables)) [
        | inl (none_fits, e) ↦ absurd (none_fits 0 (omega (arith, few)) all_free)
        | inr (a, k', g, e) ↦ elim (zero_or_pos a) [
          | inl z ↦ (
            k',
            subst (λ b. Grant k1 (num_pages nbytes) b k') z g,
            e ∙ ap (λ b. done k' ((b + ffs_start) * page_size)) z,
          )
          | inr lt ↦ absurd (g.first 0 lt all_free)
        ]
      ]
  where
    one : ¬ ◌≡◌ {A = ℕ} 1 0
    one z = omega arith

    zero_or_pos : (n : ℕ) → (n ≡ 0) ⊎ (0 < n)
    zero_or_pos zero = inl refl
    zero_or_pos (suc n) = inr (omega arith)

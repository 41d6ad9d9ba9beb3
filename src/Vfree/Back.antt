-- ===== src/Vfree/Back.antt =====
-- `vfree` takes back what `vmalloc` gave.
use native.Mathlib.Decide.{dec_lt}
use mathlib.Core.Path.{subst, sym}
use os_demand_paging.Vmalloc.{Sizes, num_pages, vmalloc_rest, granted}
use os_demand_paging.PageFault.{pt_offset}
use os_demand_paging.Vfree.Swap.{holds}
use os_demand_paging.Paging.Bytes.{load, load-aligned}
use os_demand_paging.Paging.Frames.{max_swap_size, page_size}
use os_demand_paging.Vfree.{
  vfree, free_pte, max_swap_size, page_size, free_pde, load, free_bits, pt_offset,
}
use os_demand_paging.Vmalloc.Tables.{HasTables, table, table-lt}
use os_demand_paging.Kernel.{Kernel, done}
use os_demand_paging.Vmalloc.Run.{page_bit, heap_pages}
use os_demand_paging.Paging.Entry.{Mem, decode_pt, decode_pd}
use os_demand_paging.Vfree.Result.{vfree_lem, released}
use os_demand_paging.Vfree.Bits.{page_bit-freed, free_bits-FreedWords}
use os_demand_paging.Vmalloc.Grant.{pdbr_of, Grant, vmalloc_rest_lem}
use os_demand_paging.PageFault.Access.{address}
use os_demand_paging.Base.{
  refl, inl, inr, false, if◌then◌else◌, ℕ, ◌≡◌, ◌+◌, ◌<◌, leb, ◌*◌, ◌&&◌, ltb, ◌/◌, ◌==◌, arith,
  ◌≤◌, ◌∙◌, ◌%◌, ◌^◌, ok, add32, count_if_none, ap, shl, minus_one, syserr, sym,
}

-- For an address of the first row the page table is read at `pdbr` itself.
free_pte-row0 :
    (m : Mem) (pdbr p : ℕ)
    → p < 1024
    → pdbr % 4 ≡ 0
    → pdbr < 2 ^ 32
    → free_pte m pdbr (address p 0) ≡ 4 * (table m pdbr 0 * 1024 + p) % 2 ^ 32
unfolding decode_pd
free_pte-row0 m pdbr p h al lt =
    let dir : free_pde pdbr (address p 0) ≡ pdbr = omega arith in
    let same : add32 pdbr (4 * 0) ≡ pdbr = omega arith in
    let word : load m pdbr ≡ m (pdbr / 4) = load-aligned m pdbr al in
    let entry = λ (d : ℕ). add32 (shl (decode_pd d).pd_base 12) (4 * pt_offset (address p 0)) in
    let low : (decode_pd (m (pdbr / 4))).pd_base < 2 ^ 20 = omega arith in
    let offset : pt_offset (address p 0) ≡ p = omega arith in
    ap (λ a. entry (load m a)) dir ∙ ap entry word ∙ rw (same, offset) (omega (arith, low))

page_bit-lt : (m : Mem) (pdbr q : ℕ) → page_bit m pdbr q < 2
unfolding page_bit decode_pt
page_bit-lt m pdbr q = ground arith

-- The directory of the current process is at a multiple of 4, and the process has no page in the
-- swap area.
pub record Unswapped (k : Kernel) : Type 0 where
  pub aligned : pdbr_of k % 4 ≡ 0
  pub word : pdbr_of k < 2 ^ 32
  pub pid : k.currpid < minus_one
  pub frames : (i : ℕ) → i < max_swap_size → ((k.vm.stab i).p_fm_pid == k.currpid) ≡ false

-- `vfree` of pages of the first row of the virtual heap sets their free bits, and changes no other
-- free bit, as long as no page of the process is in the swap area.
pub vfree-bits :
    (k : Kernel) (p n : ℕ)
    → 0 < n
    → p + n ≤ 1024
    → HasTables k.vm.mem (pdbr_of k)
    → Unswapped k
    → (k' : Kernel) × (vfree (address p 0) (n * page_size) k ≡ done k' ok)
      × ((q : ℕ)
          → q < heap_pages
          → page_bit k'.vm.mem (pdbr_of k) q
            ≡ (if leb p q && ltb q (p + n) then 1 else page_bit k.vm.mem (pdbr_of k) q))
vfree-bits k p n pos fits w un =
    elim (vfree_lem (address p 0) (n * page_size) k (omega arith) un.pid) [
      | inl (bad, _) ↦ absurd (ground (arith, bad))
      | inr (_, (k', f, e)) ↦
          let idle : released k (address p 0) ≡ 0 =
            count_if_none (holds k.currpid (address p 0) k.vm) max_swap_size 0 max_swap_size
              (omega arith) (λ i h. ground (arith, un.frames i h)) in
          let pages : n * page_size / page_size ≡ n = omega arith in
          let mem = f.mem idle in
          let first_word = table k.vm.mem (pdbr_of k) 0 * 1024 + p in
          let pte = free_pte-row0 k.vm.mem (pdbr_of k) p (omega arith) un.aligned un.word in
          (
            k',
            e,
            λ q h.
                ap (λ t. page_bit t (pdbr_of k) q) (mem ∙ rw (pages, pte) refl)
                ∙ page_bit-freed k.vm.mem (free_bits n 0 (4 * first_word % 2 ^ 32) k.vm.mem)
                    (pdbr_of k) p n w fits
                    (free_bits-FreedWords n 0 first_word k.vm.mem (omega arith)
                      (omega (arith, table-lt k.vm.mem (pdbr_of k) 0)))
                    q h,
          )
    ]

granted-Unswapped : (k k1 : Kernel) (z : Sizes) → k1 ≡ granted k z → Unswapped k → Unswapped k1
granted-Unswapped k k1 z e un = rw e (record {
  aligned = ground (arith, un.aligned);
  word = ground (arith, un.word);
  pid = un.pid;
  frames = un.frames;
})

-- The free bits are again as they were.
restored :
    (k k1 : Kernel) (a n : ℕ)
    → 0 < n
    → a + n ≤ 1024
    → Unswapped k
    → Grant k n a k1
    → (k2 : Kernel) × (vfree (address a 0) (n * page_size) k1 ≡ done k2 ok)
      × ((q : ℕ)
          → q < heap_pages
          → page_bit k2.vm.mem (pdbr_of k) q ≡ page_bit k.vm.mem (pdbr_of k) q)
restored k k1 a n pos fits un g =
    let (z, e) = g.same in
    let pd : pdbr_of k1 ≡ pdbr_of k = rw e (ground arith) in
    let (k2, e2, bits) =
      vfree-bits k1 a n pos fits (subst (HasTables k1.vm.mem) (sym pd) g.marked.tables)
        (granted-Unswapped k k1 z e un) in
    (
      k2,
      e2,
      λ q h.
          ap (λ d. page_bit k2.vm.mem d q) (sym pd)
          ∙ bits q h
          ∙ ap (λ d. if leb a q && ltb q (a + n) then 1 else page_bit k1.vm.mem d q) pd
          ∙ ground (arith, g.marked.bits q h, g.was_free q, page_bit-lt k.vm.mem (pdbr_of k) q),
    )

-- What happens to `n` pages that `vmalloc` is asked for in `k`.
pub data GivenBack (k : Kernel) (n : ℕ) : Type 0 where
  -- There is no room for them.
  no_room :
      vmalloc_rest (n * page_size) k ≡ done (record k { cr3 = pdbr_of k }) syserr → GivenBack k n
  -- They end behind the first row.
  past_row :
      (a : ℕ) (k1 : Kernel)
      → vmalloc_rest (n * page_size) k ≡ done k1 (address a 0)
      → 1024 < a + n
      → GivenBack k n
  -- They are given back.
  given_back :
      (a : ℕ) (k1 k2 : Kernel)
      → vmalloc_rest (n * page_size) k ≡ done k1 (address a 0)
      → vfree (address a 0) (n * page_size) k1 ≡ done k2 ok
      → ((q : ℕ)
          → q < heap_pages
          → page_bit k2.vm.mem (pdbr_of k) q ≡ page_bit k.vm.mem (pdbr_of k) q)
      → GivenBack k n

-- In a process with four page tables and no page in the swap area, `vmalloc` of some pages either
-- fails; or it returns pages that reach past the first row of the virtual heap; or `vfree` of the same
-- pages succeeds, and then every page of the virtual heap is free or taken as it was before.
pub vmalloc-vfree :
    (k : Kernel) (n : ℕ)
    → 0 < n
    → n < 2 ^ 20
    → HasTables k.vm.mem (pdbr_of k)
    → Unswapped k
    → GivenBack k n
vmalloc-vfree k n pos fits w un =
    let pages : num_pages (n * page_size) ≡ n = ground arith in
    elim (vmalloc_rest_lem (n * page_size) k (omega arith) (omega arith) w) [
      | inl (_, e) ↦ no_room e
      | inr (a, k1, g, e) ↦
          let e' : vmalloc_rest (n * page_size) k ≡ done k1 (address a 0) =
            e ∙ ap (done k1) (omega arith) in
          elim (dec_lt 1024 (a + n)) [
            | yes far ↦ past_row a k1 e' far
            | no near ↦
                let (k2, e2, bits) =
                  restored k k1 a n pos (omega arith) un (subst (λ m. Grant k m a k1) pages g) in
                given_back a k1 k2 e' e2 bits
          ]
    ]

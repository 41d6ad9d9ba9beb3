-- ===== src/Vfree/Swap.antt =====
-- The loops of `vfree` over the frame tables.
use mathlib.Core.Path.{subst, sym, ap}
use os_demand_paging.Paging.Frames.{Vm, max_swap_size, max_ffs_size}
use os_demand_paging.Vfree.{free_swap, Freeing, returned, Vm, free_ffs, free_frames}
use os_demand_paging.Base.{
  refl, inl, inr, false, if◌then◌else◌, ℕ, ◌≡◌, ◌+◌, ◌<◌, ◌&&◌, ltb, ◌==◌, arith, ◌∙◌, count_if,
  count_if_snoc, ◌^◌, Bool, Bool-cases, ◌%◌, shr, for_range, minus_one, for_range_inv,
  count_if_zero, suc, sym, for_range-suc, ap,
}

-- The swap frames that hold a page of a process.
abbrev pub holds : ℕ → ℕ → Vm → ℕ → Bool
holds pid ptr s i = (s.stab i).p_fm_vpn == shr ptr 12 && (s.stab i).p_fm_pid == pid

-- The state `z` when the loop that began with `z0` has seen the first `n` frames of the swap area.
pub record Swept (pid ptr : ℕ) (z0 : Freeing) (n : ℕ) (z : Freeing) : Type 0 where
  pub stab :
      (i : ℕ)
      → z.vm.stab i
        ≡ (if ltb i n && holds pid ptr z0.vm i then returned (z0.vm.stab i) else z0.vm.stab i)
  pub available :
      z.vm.available_swap_size % 2 ^ 32
      ≡ (z0.vm.available_swap_size + count_if (holds pid ptr z0.vm) n 0) % 2 ^ 32
  pub swap_size :
      z.swap_size % 2 ^ 32 ≡ (z0.swap_size + count_if (holds pid ptr z0.vm) n 0) % 2 ^ 32
  pub flag : (z.flag + count_if (holds pid ptr z0.vm) n 0) % 2 ^ 32 ≡ z0.flag
  pub flag_lt : z.flag < 2 ^ 32
  pub rest :
      (z.vm.ftab ≡ z0.vm.ftab)
      × (z.vm.ptab ≡ z0.vm.ptab)
      × (z.vm.available_heap_size ≡ z0.vm.available_heap_size)
      × (z.heap_size ≡ z0.heap_size)
  pub mem : ((i : ℕ) → i < n → holds pid ptr z0.vm i ≡ false) → z.vm.mem ≡ z0.vm.mem

Swept-suc :
    (pid pdbr ptr n : ℕ) (z0 z : Freeing)
    → Swept pid ptr z0 n z
    → Swept pid ptr z0 (n + 1) (free_swap pid pdbr ptr n z)
unfolding free_swap
Swept-suc pid pdbr ptr n z0 z w =
    let here : z.vm.stab n ≡ z0.vm.stab n = w.stab n ∙ ground arith in
    let same : holds pid ptr z.vm n ≡ holds pid ptr z0.vm n = rw here refl in
    let more = count_if_snoc (holds pid ptr z0.vm) n 0 in
    elim (Bool-cases (holds pid ptr z0.vm n)) [
      | inl hit ↦ rw (same ∙ hit) (record {
        stab = λ i. ground (arith, w.stab i, here, hit);
        available = ground (arith, w.available, more, hit);
        swap_size = ground (arith, w.swap_size, more, hit);
        flag = ground (arith, w.flag, w.flag_lt, more, hit);
        flag_lt = omega arith;
        rest = w.rest;
        mem = λ h. absurd (ground (arith, h n, hit));
      })
      | inr miss ↦ rw (same ∙ miss) (record {
        stab = λ i. ground (arith, w.stab i, miss);
        available = ground (arith, w.available, more, miss);
        swap_size = ground (arith, w.swap_size, more, miss);
        flag = ground (arith, w.flag, more, miss);
        flag_lt = w.flag_lt;
        rest = w.rest;
        mem = λ h. w.mem (λ i l. h i (omega arith));
      })
    ]

swap_loop :
    (pid pdbr ptr : ℕ) (z : Freeing)
    → z.flag < 2 ^ 32
    → Swept pid ptr z max_swap_size (for_range max_swap_size 0 (free_swap pid pdbr ptr) z)
swap_loop pid pdbr ptr z w =
    let none_yet = count_if_zero (holds pid ptr z.vm) 0 in
    for_range_inv (Swept pid ptr z) (free_swap pid pdbr ptr) 0 max_swap_size
      (λ i z' lo hi s. Swept-suc pid pdbr ptr i z z' s) max_swap_size 0 max_swap_size z
      (omega arith) (omega arith) (omega arith)
      (record {
        stab = λ i. ground arith;
        available = omega (arith, none_yet);
        swap_size = omega (arith, none_yet);
        flag = omega (arith, w, none_yet);
        flag_lt = w;
        rest = (refl, refl, refl, refl);
        mem = λ h. refl;
      })

-- Where no frame holds the page, neither loop does anything.
None : ℕ → ℕ → Freeing → Type 0
None pid ptr z = (i : ℕ) → i < max_swap_size → holds pid ptr z.vm i ≡ false

idle_swap :
    (pid pdbr ptr : ℕ) (z : Freeing)
    → None pid ptr z
    → for_range max_swap_size 0 (free_swap pid pdbr ptr) z ≡ z
unfolding free_swap None
idle_swap pid pdbr ptr z none_held =
    for_range_inv (λ i z'. z' ≡ z) (free_swap pid pdbr ptr) 0 max_swap_size
      (λ i z' lo hi e. rw (e, none_held i hi) refl) max_swap_size 0 max_swap_size z (omega arith)
      (omega arith) (omega arith) refl

idle_ffs :
    (pid pdbr ptr : ℕ) (z : Freeing)
    → None pid ptr z
    → for_range max_ffs_size 0 (free_ffs pid pdbr ptr) z ≡ z
unfolding free_ffs None
idle_ffs pid pdbr ptr z none_held =
    for_range_inv (λ i z'. z' ≡ z) (free_ffs pid pdbr ptr) 0 max_ffs_size
      (λ i z' lo hi e. rw (e, none_held i (omega arith)) refl) max_ffs_size 0 max_ffs_size z
      (omega arith) (omega arith) (omega arith) refl

Swept-None :
    (pid ptr : ℕ) (z0 z : Freeing)
    → pid < minus_one
    → Swept pid ptr z0 max_swap_size z
    → None pid ptr z
unfolding None
Swept-None pid ptr z0 z lt w i h = rw (w.stab i) (ground arith)

-- The loops over the pages: only the first round does anything, and in it only the loop over the
-- swap area.
pub free_frames-Swept :
    (pid pdbr ptr n : ℕ) (z : Freeing)
    → pid < minus_one
    → z.flag < 2 ^ 32
    → Swept pid ptr z max_swap_size (free_frames pid pdbr ptr (suc n) z)
unfolding free_frames
free_frames-Swept pid pdbr ptr n z lt w =
    let round = λ (i : ℕ) (z0 : Freeing).
      for_range max_ffs_size 0 (free_ffs pid pdbr ptr)
        (for_range max_swap_size 0 (free_swap pid pdbr ptr) z0) in
    let z1 = for_range max_swap_size 0 (free_swap pid pdbr ptr) z in
    let s = swap_loop pid pdbr ptr z w in
    let idle = Swept-None pid ptr z z1 lt s in
    let one : round 0 z ≡ z1 = idle_ffs pid pdbr ptr z1 idle in
    let more : for_range n 1 round z1 ≡ z1 =
      for_range_inv (λ i z'. z' ≡ z1) round 0 (n + 1)
        (λ i z' lo hi e. rw (e, idle_swap pid pdbr ptr z1 idle) (idle_ffs pid pdbr ptr z1 idle)) n 1
        (n + 1) z1 (omega arith) (omega arith) (omega arith) refl in
    subst (Swept pid ptr z max_swap_size)
      (sym (for_range-suc n 0 round z ∙ ap (for_range n 1 round) one ∙ more)) s

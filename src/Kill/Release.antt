-- ===== src/Kill/Release.antt =====
-- The frames of a process that is killed.
use os_demand_paging.Base.{
  refl, inl, inr, ℕ, ◌<◌, ◌≡◌, ◌≢◌, false, arith, Table, sweep, sweep_lem, if◌then◌else◌, ◌==◌,
  count_if, Bool-cases, count_if_none, add32, count_if_congr,
}
use os_demand_paging.Paging.Frames.{
  Frame, owned_by, Vm, max_pt_size, used_ffs_frames, used_swap_frames, max_ffs_size, max_swap_size,
}
use os_demand_paging.Kill.{
  release_frame, Vm, release_frames, max_pt_size, max_ffs_size, max_swap_size,
}

-- The loop over a table of `n` frames, at one of them.
swept :
    (n pid i : ℕ) (t : Table Frame)
    → i < n
    → sweep n 0 (λ i. release_frame pid) t i ≡ release_frame pid (t i)
swept n pid i t h = ground (arith, sweep_lem n 0 n (λ i. release_frame pid) t i)

-- A process that is not the null process owns no frame any more; another one owns what it owned.
release-owned_by :
    (n pid q i : ℕ) (t : Table Frame)
    → pid ≢ 0
    → q ≢ 0
    → i < n
    → owned_by (sweep n 0 (λ i. release_frame pid) t) q i
      ≡ (if q == pid then false else owned_by t q i)
unfolding release_frame
release-owned_by n pid q i t np nq h = ground (arith, swept n pid i t h)

-- The frames that the system counts for a process after the loop.
count-owned_by :
    (n pid q : ℕ) (t : Table Frame)
    → pid ≢ 0
    → q ≢ 0
    → count_if (owned_by (sweep n 0 (λ i. release_frame pid) t) q) n 0
      ≡ (if q == pid then 0 else count_if (owned_by t q) n 0)
count-owned_by n pid q t np nq = elim (Bool-cases (q == pid)) [
  | inl e ↦ rw (e) (
      count_if_none _ n 0 n (omega arith)
        (λ k l. ground (arith, e, release-owned_by n pid q k t np nq l)))
  | inr e ↦ rw (e) (
      count_if_congr _ _ n 0 n (omega arith)
        (λ k g l. ground (arith, e, release-owned_by n pid q k t np nq l)))
]

-- What `kill` leaves of a user process.
pub record Released (pid : ℕ) (s s' : Vm) : Type 0 where
  pub ptab_free : (i : ℕ) → i < max_pt_size → owned_by s'.ptab pid i ≡ false
  pub ffs_none : used_ffs_frames s' pid ≡ 0
  pub swap_none : used_swap_frames s' pid ≡ 0
  pub ptab_others :
      (q i : ℕ) → i < max_pt_size → q ≢ 0 → q ≢ pid → owned_by s'.ptab q i ≡ owned_by s.ptab q i
  pub ffs_others : (q : ℕ) → q ≢ 0 → q ≢ pid → used_ffs_frames s' q ≡ used_ffs_frames s q
  pub swap_others : (q : ℕ) → q ≢ 0 → q ≢ pid → used_swap_frames s' q ≡ used_swap_frames s q
  pub heap : s'.available_heap_size ≡ add32 s.available_heap_size (used_ffs_frames s pid)
  pub swap_size : s'.available_swap_size ≡ s.available_swap_size

-- For a user process, if every heap frame with its id is taken: after the loops it owns no frame of
-- a page table, of the heap or of the swap space, and every other user process owns the same page
-- table frames, and as many heap and swap frames, as before. The heap frames of the process are
-- counted as available again; the count of available swap frames stays, although its swap frames
-- become free.
pub release_frames-Released :
    (pid : ℕ) (s : Vm)
    → pid ≢ 0
    → ((i : ℕ) → i < max_ffs_size → (s.ftab i).p_fm_pid ≡ pid → (s.ftab i).p_fm_isfree ≡ 0)
    → Released pid s (release_frames pid s)
unfolding release_frames used_ffs_frames used_swap_frames
release_frames-Released pid s np taken = record {
  ptab_free = λ i l. ground (arith, release-owned_by max_pt_size pid pid i s.ptab np np l);
  ptab_others = λ q i l nq d. ground (arith, release-owned_by max_pt_size pid q i s.ptab np nq l);
  ffs_none = ground (arith, count-owned_by max_ffs_size pid pid s.ftab np np);
  swap_none = ground (arith, count-owned_by max_swap_size pid pid s.stab np np);
  ffs_others = λ q nq d. ground (arith, count-owned_by max_ffs_size pid q s.ftab np nq);
  swap_others = λ q nq d. ground (arith, count-owned_by max_swap_size pid q s.stab np nq);
  heap =
      rw
        (count_if_congr (λ i. (s.ftab i).p_fm_pid == pid) (owned_by s.ftab pid) max_ffs_size 0
          max_ffs_size refl
          (λ k g l. elim (Bool-cases ((s.ftab k).p_fm_pid == pid)) [
            | inl e ↦ ground (arith, e, taken k l)
            | inr e ↦ ground (arith, e)
          ]))
        refl;
  swap_size = refl;
}

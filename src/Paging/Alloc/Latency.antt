-- ===== src/Paging/Alloc/Latency.antt =====
-- The claim count of the FFS frames, by which `get_phy_fr_num` chooses its victim.
use os_demand_paging.Base.{
  ℕ, ◌+◌, ◌<◌, ◌^◌, ◌≡◌, refl, ◌⊎◌, inl, inr, true, false, arith, Table, syserr, if◌then◌else◌,
  Bool,
}
use os_demand_paging.Paging.Frames.{max_ffs_size, ffs_start, Vm}
use os_demand_paging.Paging.Alloc.Lru.{ClaimedBefore, lru_scan-IsOldest}
use os_demand_paging.Paging.Alloc.Take.{counted, take_ffs_frame_lem}
use os_demand_paging.Paging.Alloc.{
  Locals, Victim, take_swap_frame, take_ffs_frame, claim_frame, swap_slot, evict, lru_scan,
  pte_addr,
}

-- `s'` has the FFS table, the page table area's table and the claim count of `s`.
pub record SameTables (s s' : Vm) : Type 0 where
  pub ftab : s'.ftab ≡ s.ftab
  pub ptab : s'.ptab ≡ s.ptab
  pub latency : s'.latency ≡ s.latency
  pub heap : s'.available_heap_size ≡ s.available_heap_size
  pub swap : s'.available_swap_size ≡ s.available_swap_size

swap_slot-SameTables : (s : Vm) (u : Locals) (v : Victim) → SameTables s (swap_slot s u v).0
unfolding swap_slot take_swap_frame
swap_slot-SameTables s u v = record {
  ftab = ground arith;
  ptab = ground arith;
  latency = ground arith;
  heap = ground arith;
  swap = ground arith;
}

-- An eviction writes memory and the swap table only, whether it succeeds or fails.
pub evict-SameTables :
    (s : Vm) (u : Locals) (v : Victim) (pte : ℕ) → SameTables s (evict s u v pte).0
unfolding evict
evict-SameTables s u v pte =
    let k = swap_slot-SameTables s u v in
    record {
      ftab = ground (arith, k.ftab);
      ptab = ground (arith, k.ptab);
      latency = ground (arith, k.latency);
      heap = ground (arith, k.heap);
      swap = ground (arith, k.swap);
    }

-- Frame `i` of the FFS area is the page's, and was claimed at the present count.
pub record Claimed (s : Vm) (i pid vpn : ℕ) : Type 0 where
  pub index_lt : i < max_ffs_size
  pub owner : (s.ftab i).p_fm_pid ≡ pid
  pub number : (s.ftab i).p_fm_vpn ≡ vpn
  pub isfree : (s.ftab i).p_fm_isfree ≡ 0
  pub latency : (s.ftab i).p_fm_latency ≡ s.latency

pub claim_frame-Claimed :
    (s : Vm) (i pid vpn : ℕ) → i < max_ffs_size → Claimed (claim_frame s i pid vpn) i pid vpn
unfolding claim_frame
claim_frame-Claimed s i pid vpn h = record {
  index_lt = h;
  owner = ground arith;
  number = ground arith;
  isfree = ground arith;
  latency = ground arith;
}

claim_frame-ClaimedBefore :
    (s : Vm) (i pid vpn n : ℕ)
    → s.latency < n
    → ClaimedBefore s.ftab n
    → ClaimedBefore (claim_frame s i pid vpn).ftab n
unfolding claim_frame
claim_frame-ClaimedBefore s i pid vpn n h c = λ j l. ground (arith, c j l)

-- The outcome of a claim: a frame of the FFS area for the page, or `SYSERR`.
abbrev pub ClaimOutcome : Vm → Vm × ℕ → ℕ → ℕ → Type 0
ClaimOutcome s r pid vpn =
    (r.0.latency ≡ s.latency + 1)
    × ClaimedBefore r.0.ftab (r.0.latency + 1)
    × (((i : ℕ) × Claimed r.0 i pid vpn × (r.1 ≡ ffs_start + i)) ⊎ (r.1 ≡ syserr))

claimed-ClaimOutcome :
    (s s' : Vm) (i pid vpn : ℕ)
    → s.latency + 1 < 2 ^ 32
    → ClaimedBefore s.ftab (s.latency + 1)
    → SameTables (counted s) s'
    → i < max_ffs_size
    → ClaimOutcome s (claim_frame s' i pid vpn, ffs_start + i) pid vpn
unfolding claim_frame
claimed-ClaimOutcome s s' i pid vpn fits c same lt = (
  omega (arith, same.latency),
  λ j l. ground (arith, same.latency, same.ftab, c j l),
  inl (i, unfold claim_frame in claim_frame-Claimed s' i pid vpn lt, refl),
)

evicted-ClaimOutcome :
    (s s' : Vm) (done : Bool) (i pid vpn : ℕ)
    → s.latency + 1 < 2 ^ 32
    → ClaimedBefore s.ftab (s.latency + 1)
    → SameTables (counted s) s'
    → i < max_ffs_size
    → ClaimOutcome s
        (if done then (claim_frame s' i pid vpn, ffs_start + i) else (s', syserr))
        pid
        vpn
evicted-ClaimOutcome s s' true i pid vpn fits c same lt =
    claimed-ClaimOutcome s s' i pid vpn fits c same lt
evicted-ClaimOutcome s s' false i pid vpn fits c same lt =
    (omega (arith, same.latency), λ j l. ground (arith, same.latency, same.ftab, c j l), inr refl)

-- Whether a frame is free or one has to be evicted: as long as the claim count has not reached
-- 2^32 - 1 and bounds the counts of all frames, `get_phy_fr_num` of an FFS frame raises the count
-- by one, keeps it a bound, and returns `SYSERR` or the number of a frame of the FFS area that
-- is now recorded as taken for the page at the new count.
pub take_ffs_frame-ClaimOutcome :
    (pdbr : Table ℕ) (s : Vm) (u : Locals) (pid vpn : ℕ)
    → s.latency + 1 < 2 ^ 32
    → ClaimedBefore s.ftab (s.latency + 1)
    → ClaimOutcome s (take_ffs_frame pdbr s u pid vpn) pid vpn
take_ffs_frame-ClaimOutcome pdbr s u pid vpn fits c = elim (take_ffs_frame_lem pdbr s u pid vpn) [
  | inl (i, f, e) ↦ rw e (
      claimed-ClaimOutcome s (counted s) i pid vpn fits c
        (record { ftab = refl; ptab = refl; latency = refl; heap = refl; swap = refl }) f.index_lt)
  | inr (full, e) ↦
      let v = lru_scan s.ftab (counted s).latency u in
      let pte = pte_addr s.mem (pdbr v.lru_fr_pid) v.lru_fr_vpn in
      rw e (
        evicted-ClaimOutcome s _ _ v.lru_fr_index pid vpn fits c
          (evict-SameTables (counted s) u v pte)
          (lru_scan-IsOldest s.ftab (counted s).latency u (λ j l. omega (arith, c j l))).index_lt)
]

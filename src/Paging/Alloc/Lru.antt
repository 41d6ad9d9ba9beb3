-- ===== src/Paging/Alloc/Lru.antt =====
-- The frame that the eviction loop of `get_phy_fr_num` picks.
use os_demand_paging.Base.{
  ℕ, ◌+◌, ◌≤◌, ◌<◌, ◌≡◌, refl, inl, inr, arith, Table, ltb, Bool-cases, for_range_inv,
}
use os_demand_paging.Paging.Frames.{max_ffs_size, Frame}
use os_demand_paging.Paging.Alloc.{Victim, Locals, lru_step, lru_scan}

-- Every frame of the FFS area was claimed before the count `latency`.
abbrev pub ClaimedBefore : Table Frame → ℕ → Type 0
ClaimedBefore t latency = (i : ℕ) → i < max_ffs_size → (t i).p_fm_latency < latency

-- What `v` says of the first `n` frames.
pub record Scanned (t : Table Frame) (latency n : ℕ) (v : Victim) : Type 0 where
  pub bounded : v.latest_acc ≤ latency
  pub least : (j : ℕ) → j < n → v.latest_acc ≤ (t j).p_fm_latency
  pub index_lt : v.latest_acc < latency → v.lru_fr_index < n
  pub acc : v.latest_acc < latency → (t v.lru_fr_index).p_fm_latency ≡ v.latest_acc
  pub vpn : v.latest_acc < latency → (t v.lru_fr_index).p_fm_vpn ≡ v.lru_fr_vpn
  pub pid : v.latest_acc < latency → (t v.lru_fr_index).p_fm_pid ≡ v.lru_fr_pid

lru_step-Scanned :
    (t : Table Frame) (latency n : ℕ) (v : Victim)
    → Scanned t latency n v
    → Scanned t latency (n + 1) (lru_step t n v)
unfolding lru_step
lru_step-Scanned t latency n v s = elim (Bool-cases (ltb (t n).p_fm_latency v.latest_acc)) [
  | inl hit ↦ rw hit (record {
    bounded = ground (arith, s.bounded);
    least = λ j h. ground (arith, s.least j);
    index_lt = λ h. omega arith;
    acc = λ h. refl;
    vpn = λ h. refl;
    pid = λ h. refl;
  })
  | inr miss ↦ rw miss (record {
    bounded = s.bounded;
    least = λ j h. ground (arith, s.least j);
    index_lt = λ h. omega (arith, s.index_lt h);
    acc = s.acc;
    vpn = s.vpn;
    pid = s.pid;
  })
]

-- The victim is the frame that was claimed longest ago, with the page and the process that the
-- table records for it.
pub record IsOldest (t : Table Frame) (v : Victim) : Type 0 where
  pub index_lt : v.lru_fr_index < max_ffs_size
  pub oldest : (j : ℕ) → j < max_ffs_size → (t v.lru_fr_index).p_fm_latency ≤ (t j).p_fm_latency
  pub vpn : (t v.lru_fr_index).p_fm_vpn ≡ v.lru_fr_vpn
  pub pid : (t v.lru_fr_index).p_fm_pid ≡ v.lru_fr_pid

-- If every frame of the FFS area was claimed before `latency`, the eviction loop picks a frame of
-- the area that was claimed no later than any other, whatever the locals held at first.
pub lru_scan-IsOldest :
    (t : Table Frame) (latency : ℕ) (u : Locals)
    → ClaimedBefore t latency
    → IsOldest t (lru_scan t latency u)
unfolding lru_scan
lru_scan-IsOldest t latency u before = go scanned
  where
    scanned : Scanned t latency max_ffs_size (lru_scan t latency u)
    scanned =
        for_range_inv (Scanned t latency) (lru_step t) 0 max_ffs_size
          (λ i s lo hi p. lru_step-Scanned t latency i s p) max_ffs_size 0 max_ffs_size _
          (omega arith) (omega arith) (omega arith)
          (record {
            bounded = omega arith;
            least = λ j h. absurd (omega arith);
            index_lt = λ h. absurd (omega arith);
            acc = λ h. absurd (omega arith);
            vpn = λ h. absurd (omega arith);
            pid = λ h. absurd (omega arith);
          })

    go : Scanned t latency max_ffs_size (lru_scan t latency u) → IsOldest t (lru_scan t latency u)
    go s =
        let found : (lru_scan t latency u).latest_acc < latency =
          omega (arith, s.least 0 (omega arith), before 0 (omega arith)) in
        record {
          index_lt = s.index_lt found;
          oldest = λ j h. rw (s.acc found) (s.least j h);
          vpn = s.vpn found;
          pid = s.pid found;
        }

-- ===== src/Paging/Alloc/Take.antt =====
-- What each branch of `get_phy_fr_num` returns, and what it changes.
use os_demand_paging.Base.{
  ℕ, ◌+◌, ◌<◌, ◌≡◌, ◌⊎◌, inl, inr, true, false, arith, Table, put, ltb, Bool-cases, first,
  first_lem, IsFirst, if◌then◌else◌, add32, ◌≢◌, syserr,
}
use os_demand_paging.Paging.Frames.{
  max_pt_size, max_swap_size, max_ffs_size, pt_start, swap_start, ffs_start, TabType, page, Frame,
  Vm,
}
use os_demand_paging.Paging.Alloc.{
  Locals, is_free, take_pt_frame, take_swap_frame, take_ffs_frame, claim_frame, lru_scan, evict,
  pte_addr,
}

-- No frame of the first `n` is free.
abbrev pub AllTaken : Table Frame → ℕ → Type 0
AllTaken t n = (i : ℕ) → i < n → (t i).p_fm_isfree ≡ 0

-- `i` is the first free frame of the first `n`.
pub record IsFirstFree (t : Table Frame) (n i : ℕ) : Type 0 where
  pub index_lt : i < n
  pub free : (t i).p_fm_isfree ≢ 0
  pub before : AllTaken t i

pub free-cases :
    (t : Table Frame) (n : ℕ)
    → ((ltb (first (is_free t) n 0) n ≡ true) × IsFirstFree t n (first (is_free t) n 0))
      ⊎ ((ltb (first (is_free t) n 0) n ≡ false) × AllTaken t n)
free-cases t n = go (first_lem (is_free t) n 0 n (omega arith))
  where
    go :
        IsFirst (is_free t) 0 n (first (is_free t) n 0)
        → ((ltb (first (is_free t) n 0) n ≡ true) × IsFirstFree t n (first (is_free t) n 0))
          ⊎ ((ltb (first (is_free t) n 0) n ≡ false) × AllTaken t n)
    go f = elim (Bool-cases (ltb (first (is_free t) n 0) n)) [
      | inl e ↦ inl (
        e,
        record {
          index_lt = ground arith;
          free = λ z. ground (arith, f.stops (ground arith));
          before = λ k h. ground (arith, f.skips k (omega arith) h);
        },
      )
      | inr e ↦ inr (e, λ k h. ground (arith, f.skips k (omega arith) (ground arith)))
    ]

-- The entry of frame `i` after a frame of the page table area, or of the swap area, is taken.
abbrev pub pt_taken : Vm → ℕ → ℕ → TabType → Vm
pt_taken s i pid table = record s {
  ptab = put s.ptab i (record (s.ptab i) { p_fm_type = table; p_fm_pid = pid; p_fm_isfree = 0 });
}

abbrev pub swap_taken : Vm → ℕ → ℕ → ℕ → Vm
swap_taken s i pid vpn = record s {
  stab =
      put s.stab i
        (record (s.stab i) { p_fm_type = page; p_fm_pid = pid; p_fm_isfree = 0; p_fm_vpn = vpn });
}

-- A page table frame: the first free one is taken for the process and its number returned; if
-- there is none, nothing changes and the value of an uninitialised local is returned.
pub take_pt_frame_lem :
    (s : Vm) (u : Locals) (pid : ℕ) (table : TabType)
    → ((i : ℕ) × IsFirstFree s.ptab max_pt_size i
        × (take_pt_frame s u pid table ≡ (pt_taken s i pid table, i + pt_start)))
      ⊎ (AllTaken s.ptab max_pt_size × (take_pt_frame s u pid table ≡ (s, u.addr)))
unfolding take_pt_frame
take_pt_frame_lem s u pid table = elim (free-cases s.ptab max_pt_size) [
  | inl (e, f) ↦ inl (_, f, rw e)
  | inr (e, f) ↦ inr (f, rw e)
]

-- A swap frame: the same, and the page is recorded too.
pub take_swap_frame_lem :
    (s : Vm) (u : Locals) (pid vpn : ℕ)
    → ((i : ℕ) × IsFirstFree s.stab max_swap_size i
        × (take_swap_frame s u pid vpn ≡ (swap_taken s i pid vpn, i + swap_start)))
      ⊎ (AllTaken s.stab max_swap_size × (take_swap_frame s u pid vpn ≡ (s, u.addr)))
unfolding take_swap_frame
take_swap_frame_lem s u pid vpn = elim (free-cases s.stab max_swap_size) [
  | inl (e, f) ↦ inl (_, f, rw e)
  | inr (e, f) ↦ inr (f, rw e)
]

-- The state in which the FFS branch works: its count goes up first.
abbrev pub counted : Vm → Vm
counted s = record s { latency = add32 s.latency 1 }

-- An FFS frame: while one is free the first one is claimed under the new count, and memory and the
-- other tables stay as they are; otherwise the frame of the victim is claimed after its eviction.
pub take_ffs_frame_lem :
    (pdbr : Table ℕ) (s : Vm) (u : Locals) (pid vpn : ℕ)
    → ((i : ℕ) × IsFirstFree s.ftab max_ffs_size i
        × (take_ffs_frame pdbr s u pid vpn ≡ (claim_frame (counted s) i pid vpn, ffs_start + i)))
      ⊎ (AllTaken s.ftab max_ffs_size
          × (let v = lru_scan s.ftab (counted s).latency u in
              let r = evict (counted s) u v (pte_addr s.mem (pdbr v.lru_fr_pid) v.lru_fr_vpn) in
              take_ffs_frame pdbr s u pid vpn ≡ (
                if r.1
                then (claim_frame r.0 v.lru_fr_index pid vpn, ffs_start + v.lru_fr_index)
                else (r.0, syserr))))
unfolding take_ffs_frame
take_ffs_frame_lem pdbr s u pid vpn = elim (free-cases s.ftab max_ffs_size) [
  | inl (e, f) ↦ inl (_, f, rw e)
  | inr (e, f) ↦ inr (f, rw e)
]

-- ===== src/Paging/Alloc/Coherent.antt =====
-- A frame for a page whose contents wait in the swap area: the copy there survives the eviction
-- that the claim may cause.
use mathlib.Core.Path.{subst}
use os_demand_paging.Base.{
  ℕ, ◌+◌, ◌*◌, ◌^◌, ◌<◌, ◌≡◌, ◌≢◌, refl, ◌∙◌, ◌⊎◌, inl, inr, true, false, arith, Table,
}
use os_demand_paging.Paging.Entry.{pt_at}
use os_demand_paging.Paging.Frames.{
  max_ffs_size, max_swap_size, pt_start, ffs_start, swap_start, Vm,
}
use os_demand_paging.Paging.Alloc.Lru.{ClaimedBefore, IsOldest, lru_scan-IsOldest}
use os_demand_paging.Paging.Alloc.Take.{counted, take_ffs_frame_lem}
use os_demand_paging.Paging.Alloc.Copy.{SamePage}
use os_demand_paging.Paging.Alloc.Evict.{HasSlot, InPtArea, Evicted, evict-Evicted}
use os_demand_paging.Paging.Alloc.Latency.{Claimed, claim_frame-Claimed}
use os_demand_paging.Paging.Alloc.{
  Locals, Victim, take_ffs_frame, claim_frame, find_swap, holds_page, lru_scan, pte_addr,
}

-- The page of frame `j` of the FFS area, and the address of its entry.
abbrev pub entry_of : Table ℕ → Vm → ℕ → ℕ
entry_of pdbr s j = pte_addr s.mem (pdbr (s.ftab j).p_fm_pid) (s.ftab j).p_fm_vpn

-- The tables agree with memory: each frame's page has its entry in the page table area, a swap
-- frame of a clean page is up to date, and every page could be given a swap frame.
pub record Coherent (pdbr : Table ℕ) (s : Vm) : Type 0 where
  pub fits : s.latency + 1 < 2 ^ 32
  pub claimed : ClaimedBefore s.ftab (s.latency + 1)
  pub entries : (j : ℕ) → j < max_ffs_size → InPtArea (entry_of pdbr s j)
  pub room : (j : ℕ) → j < max_ffs_size → HasSlot s.stab (s.ftab j).p_fm_pid (s.ftab j).p_fm_vpn
  pub sync :
      (j : ℕ)
      → j < max_ffs_size
      → (pt_at s.mem (entry_of pdbr s j)).pt_dirty ≡ 0
      → (i : ℕ) → i ≡ find_swap s.stab (s.ftab j).p_fm_pid (s.ftab j).p_fm_vpn
      → i < max_swap_size
      → SamePage s.mem (ffs_start + j) s.mem (swap_start + i)

-- The page is in frame `n` of the swap area, and in no frame of the FFS area.
pub record SwappedOut (s : Vm) (pid vpn n : ℕ) : Type 0 where
  pub index_lt : n < max_swap_size
  pub held : holds_page pid vpn (s.stab n) ≡ true
  pub taken : (s.stab n).p_fm_isfree ≡ 0
  pub absent : (j : ℕ) → j < max_ffs_size → holds_page pid vpn (s.ftab j) ≡ false

-- What a claim of frame `i` leaves: the page's swap frame, and memory below the page tables.
pub record Kept (s s' : Vm) (pid vpn n i : ℕ) : Type 0 where
  pub claimed : Claimed s' i pid vpn
  pub page : SamePage s.mem (swap_start + n) s'.mem (swap_start + n)
  pub low : (a : ℕ) → a < pt_start * 1024 → s'.mem a ≡ s.mem a

slot-other :
    (s : Vm) (v : Victim) (pid vpn n i : ℕ)
    → SwappedOut s pid vpn n
    → IsOldest s.ftab v
    → (holds_page v.lru_fr_pid v.lru_fr_vpn (s.stab i) ≡ true) ⊎ ((s.stab i).p_fm_isfree ≢ 0)
    → n ≢ i
slot-other s v pid vpn n i out old (inl held) e =
    ground (arith, held, out.held, out.absent v.lru_fr_index old.index_lt, old.vpn, old.pid)
slot-other s v pid vpn n i out old (inr free) e =
    free (subst (λ j. (s.stab j).p_fm_isfree ≡ 0) e out.taken)

Evicted-Kept :
    (s s' : Vm) (v : Victim) (pte pid vpn n i : ℕ)
    → SwappedOut s pid vpn n
    → IsOldest s.ftab v
    → InPtArea pte
    → Evicted (counted s) v pte s' i
    → Kept s (claim_frame s' v.lru_fr_index pid vpn) pid vpn n v.lru_fr_index
unfolding claim_frame
Evicted-Kept s s' v pte pid vpn n i out old area ev =
    let other = slot-other s v pid vpn n i out old ev.slot.origin in
    record {
      claimed = claim_frame-Claimed s' v.lru_fr_index pid vpn old.index_lt;
      page = λ w h. ev.elsewhere _ (omega (arith, area.below, out.index_lt)) (omega (arith, other));
      low = λ a h. ev.elsewhere a (omega (arith, area.above)) (omega arith);
    }

free-Kept :
    (s : Vm) (pid vpn n i : ℕ)
    → i < max_ffs_size
    → Kept s (claim_frame (counted s) i pid vpn) pid vpn n i
unfolding claim_frame
free-Kept s pid vpn n i lt = record {
  claimed = claim_frame-Claimed (counted s) i pid vpn lt;
  page = λ w h. refl;
  low = λ a h. refl;
}

-- In a coherent state, an FFS frame for a page that is swapped out is always had: the claim
-- succeeds, whether a frame is free or one has to be evicted, and it leaves the page's copy in
-- the swap area and all memory below the page tables as they are.
pub take_ffs_frame-Kept :
    (pdbr : Table ℕ) (s : Vm) (u : Locals) (pid vpn n : ℕ)
    → Coherent pdbr s
    → SwappedOut s pid vpn n
    → (i : ℕ) × (s' : Vm) × Kept s s' pid vpn n i
      × (take_ffs_frame pdbr s u pid vpn ≡ (s', ffs_start + i))
take_ffs_frame-Kept pdbr s u pid vpn n co out = elim (take_ffs_frame_lem pdbr s u pid vpn) [
  | inl (i, f, e) ↦ (i, claim_frame (counted s) i pid vpn, free-Kept s pid vpn n i f.index_lt, e)
  | inr (full, e) ↦
      let v = lru_scan s.ftab (counted s).latency u in
      let old =
        lru_scan-IsOldest s.ftab (counted s).latency u
          (λ j l. omega (arith, co.claimed j l, co.fits)) in
      let pte = pte_addr s.mem (pdbr v.lru_fr_pid) v.lru_fr_vpn in
      let area : InPtArea pte =
        rw (← old.vpn, ← old.pid) (co.entries v.lru_fr_index old.index_lt) in
      let (i, s', ev, done) =
        evict-Evicted (counted s) u v pte old.index_lt area
          (rw (← old.vpn, ← old.pid) (co.room v.lru_fr_index old.index_lt))
          (rw (← old.vpn, ← old.pid) (co.sync v.lru_fr_index old.index_lt)) in
      (
        v.lru_fr_index,
        claim_frame s' v.lru_fr_index pid vpn,
        Evicted-Kept s s' v pte pid vpn n i out old area ev,
        e ∙ rw done,
      )
]

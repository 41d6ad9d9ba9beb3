-- ===== src/Examples/Frames.antt =====
-- A full FFS area: frame `j` holds the clean page 5120 + j of process 1. One page is in the swap area.
use os_demand_paging.PageFault.{virt_word}
use native.Mathlib.Decide.{dec_lt}
use os_demand_paging.Paging.Alloc.Latency.{take_ffs_frame-ClaimOutcome, ClaimOutcome}
use os_demand_paging.Kill.{release_frames}
use os_demand_paging.Paging.Alloc.Evict.{
  Evicted, HasSlot, InPtArea, evict-Evicted, find_swap-IsFirst,
}
use os_demand_paging.Kill.Release.{Released, release_frames-Released}
use os_demand_paging.Paging.Alloc.Lru.{IsOldest, lru_scan-IsOldest}
use os_demand_paging.Paging.Alloc.Coherent.{Coherent, SwappedOut, Kept, take_ffs_frame-Kept}
use os_demand_paging.Paging.Entry.{decode_pd, Mem}
use os_demand_paging.Paging.Frames.{
  Vm, Frame, free_frame, ffs_start, max_ffs_size, max_swap_size, page,
}
use os_demand_paging.Paging.Alloc.{
  Locals, Victim, pte_addr, evict, lru_scan, take_ffs_frame, find_swap,
}
use os_demand_paging.Base.{
  refl, Table, ℕ, arith, ◌*◌, ◌<◌, ◌≡◌, if◌then◌else◌, inr, true, ◌+◌, ◌==◌, ◌≤◌, ltb, ◌%◌, ◌-◌,
}

abbrev pub locals : Locals
locals = record { addr = 0; fr_index = 0; fr_vpn = 0; fr_pid = 0 }

abbrev pub frame_of : ℕ → Frame
frame_of vpn = record {
  p_fm_type = page;
  p_fm_pid = 1;
  p_fm_vpn = vpn;
  p_fm_isfree = 0;
  p_fm_dirty = 0;
  p_fm_latency = 0;
}

-- The directory in frame 4096 names the page tables in the frames behind it. The pages of the FFS
-- area are present; the page 17000 is in swap frame 0. Memory below the page tables holds the
-- offsets of that page's address.
abbrev pub resident : Mem
resident a =
    if ltb a (4096 * 1024)
    then virt_word (17000 * 4096)
    else (if ltb a (4097 * 1024)
        then (4097 + a % 1024) * 4096 + 3
        else (if ltb a (4097 * 1024 + 9216) then (a - 4097 * 1024) * 4096 + 3 else 9216 * 4096))

abbrev pub crowded : Vm
crowded = record {
  ptab = λ i. free_frame;
  stab = λ i. if i == 0 then frame_of 17000 else free_frame;
  ftab = λ j. frame_of (5120 + j);
  latency = 0;
  available_heap_size = 0;
  available_swap_size = 8191;
  mem = resident;
}

abbrev pub directory : Table ℕ
directory = λ p. 4096 * 4096

-- The page table entry is its own bits.
-- A clean page is present and writable, and has no swap frame.
pub find_swap-none :
    (j : ℕ) → j < max_ffs_size → max_swap_size ≤ find_swap crowded.stab 1 (5120 + j)
find_swap-none j h =
    let f = find_swap-IsFirst crowded.stab 1 (5120 + j) in
    elim (dec_lt (find_swap crowded.stab 1 (5120 + j)) max_swap_size) [
      | yes l ↦ ground (arith, f.stops l)
      | no l ↦ omega arith
    ]

pub crowded-HasSlot : (pid vpn : ℕ) → HasSlot crowded.stab pid vpn
crowded-HasSlot pid vpn =
    inr
      (1, record { index_lt = omega arith; free = λ e. ground arith; before = λ k h. ground arith })

pub entry-InPtArea : (vpn : ℕ) → vpn < 9216 → InPtArea (pte_addr crowded.mem (4096 * 4096) vpn)
unfolding pte_addr decode_pd
entry-InPtArea vpn h = record { above = ground arith; below = ground arith }

pub crowded-Coherent : Coherent directory crowded
crowded-Coherent = record {
  fits = omega arith;
  claimed = λ j h. omega arith;
  entries = λ j h. entry-InPtArea (5120 + j) (omega arith);
  room = λ j h. crowded-HasSlot 1 (5120 + j);
  sync = λ j h clean i e l. absurd (omega (arith, find_swap-none j h));
}

pub crowded-SwappedOut : SwappedOut crowded 1 17000 0
crowded-SwappedOut = record {
  index_lt = omega arith;
  held = refl;
  taken = refl;
  absent = λ j h. ground arith;
}

lru_scan-IsOldest_example : IsOldest crowded.ftab (lru_scan crowded.ftab 1 locals)
lru_scan-IsOldest_example = lru_scan-IsOldest crowded.ftab 1 locals (λ j h. omega arith)

take_ffs_frame-ClaimOutcome_example :
    ClaimOutcome crowded (take_ffs_frame directory crowded locals 1 17000) 1 17000
take_ffs_frame-ClaimOutcome_example =
    take_ffs_frame-ClaimOutcome directory crowded locals 1 17000 (omega arith) (λ j h. omega arith)

take_ffs_frame-Kept_example :
    (i : ℕ) × (s' : Vm) × Kept crowded s' 1 17000 0 i
    × (take_ffs_frame directory crowded locals 1 17000 ≡ (s', ffs_start + i))
take_ffs_frame-Kept_example =
    take_ffs_frame-Kept directory crowded locals 1 17000 0 crowded-Coherent crowded-SwappedOut

-- The first frame is evicted.
abbrev first_victim : Victim
first_victim = record { latest_acc = 0; lru_fr_index = 0; lru_fr_vpn = 5120; lru_fr_pid = 1 }

abbrev first_pte : ℕ
first_pte = pte_addr crowded.mem (4096 * 4096) 5120

evict-Evicted_example :
    (i : ℕ) × (s' : Vm) × Evicted crowded first_victim first_pte s' i
    × (evict crowded locals first_victim first_pte ≡ (s', true))
evict-Evicted_example =
    evict-Evicted crowded locals first_victim first_pte (omega arith)
      (entry-InPtArea 5120 (omega arith)) (crowded-HasSlot 1 5120)
      (λ clean i e l. absurd (omega (arith, find_swap-none 0 (omega arith))))

release_frames-Released_example : Released 1 crowded (release_frames 1 crowded)
release_frames-Released_example = release_frames-Released 1 crowded (omega arith) (λ i h e. refl)

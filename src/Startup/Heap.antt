-- ===== src/Startup/Heap.antt =====
-- The free list that `meminit` makes.
use os_demand_paging.Startup.{meminit, holestart, holeend, nullstk}
use os_demand_paging.FreeList.{Memory}
use os_demand_paging.FreeList.Cover.{Ascending, covered, IsHeap}
use os_demand_paging.Base.{ℕ, true, false, ◌≡◌, ◌+◌, ◌-◌, ◌<◌, ◌^◌, arith, ◌≤◌}

-- The blocks are in ascending order, without overlap, between `end` and the stack of the null process
-- at the end of memory. The bytes below the hole are free, but for the first seven and the last
-- eight, and so are those behind it but for the last seven; no byte of the hole is.
pub record IsInitial (end maxheap : ℕ) (m : Memory) : Type 0 where
  pub ascending : Ascending end (maxheap - nullstk) m.blocks
  pub lower : (c : ℕ) → end + 7 ≤ c → c + 8 < holestart → covered m.blocks c ≡ true
  pub upper : (c : ℕ) → holeend ≤ c → c + nullstk + 7 < maxheap → covered m.blocks c ≡ true
  pub hole : (c : ℕ) → holestart ≤ c → c < holeend → covered m.blocks c ≡ false

-- If the kernel ends at least twelve bytes below the hole, and the memory goes on behind the hole for
-- more than the stack of the null process, `meminit` makes two blocks: in ascending order, without
-- overlap, behind the kernel and below that stack. All bytes on both sides of the hole are free, but
-- for seven or eight at the ends that alignment costs, and no byte of the hole is.
pub meminit-IsInitial :
    (end : ℕ) (m : Memory)
    → end + 12 ≤ holestart
    → holeend + nullstk + 8 ≤ m.maxheap
    → m.maxheap + 1 < 2 ^ 32
    → IsInitial end m.maxheap (meminit end m)
unfolding meminit covered
meminit-IsInitial end m below above fits = record {
  ascending = ground arith;
  lower = λ c lo hi. ground arith;
  upper = λ c lo hi. ground arith;
  hole = λ c lo hi. ground arith;
}

-- The free list that `meminit` makes is one that `getmem` and `freemem` keep in order.
pub meminit-IsHeap :
    (end : ℕ) (m : Memory)
    → end + 12 ≤ holestart
    → holeend + nullstk + 8 ≤ m.maxheap
    → m.maxheap + 1 < 2 ^ 32
    → IsHeap end (m.maxheap - nullstk) (meminit end m)
meminit-IsHeap end m below above fits = record {
  limit = omega arith;
  blocks = (meminit-IsInitial end m below above fits).ascending;
}

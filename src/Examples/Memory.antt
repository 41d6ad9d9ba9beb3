-- ===== src/Examples/Memory.antt =====
-- Two free blocks, whose length field has a value that is not their length, and the memory after the
-- start.
use os_demand_paging.Startup.Heap.{meminit-IsHeap}
use os_demand_paging.Startup.{meminit}
use os_demand_paging.FreeList.Free.{freemem-Returned}
use os_demand_paging.FreeList.Join.{Overlap, Returned}
use os_demand_paging.FreeList.Take.{AllShorter, Taken, getmem-Taken}
use os_demand_paging.FreeList.Cover.{IsHeap}
use os_demand_paging.FreeList.{
  Memory, getmem, freemem, put_block, put_after, put_behind, join_next, getstk, last_fit,
}
use os_demand_paging.Base.{refl, [], ◌∷◌, arith, ◌≡◌, syserr, ◌⊎◌, ℕ, ok, ◌+◌, ◌-◌, add32, sub32}

abbrev two_blocks : Memory
two_blocks = record {
  blocks = record { addr = 4096; mlength = 16 } ∷ record { addr = 8192; mlength = 64 } ∷ [];
  total = 0;
  minheap = 4096;
  maxheap = 16384;
}

two_blocks-IsHeap : IsHeap 4096 16384 two_blocks
two_blocks-IsHeap = record {
  limit = omega arith;
  blocks = (omega arith, omega arith, (omega arith, omega arith, omega arith));
}

-- The memory after the start, of a kernel that ends at 128 KB on a machine of 16 MB.
abbrev booted : Memory
booted = meminit 131072 (record two_blocks { maxheap = 16777208 })

booted-IsHeap : IsHeap 131072 16769016 booted
booted-IsHeap =
    meminit-IsHeap 131072 (record two_blocks { maxheap = 16777208 }) (omega arith) (omega arith)
      (omega arith)

getmem-Taken_example :
    (AllShorter 24 booted.blocks × (getmem booted 20 ≡ (booted, syserr)))
    ⊎ ((a : ℕ) × (m' : Memory) × Taken 131072 16769016 24 booted.blocks a m'.blocks
        × IsHeap 131072 16769016 m'
        × (m'.total ≡ sub32 booted.total 24)
        × (getmem booted 20 ≡ (m', a)))
getmem-Taken_example =
    getmem-Taken 131072 16769016 20 booted booted-IsHeap (omega arith) (omega arith)

freemem-Returned_example :
    (Overlap 16 4112 two_blocks.blocks × (freemem two_blocks 4112 10 ≡ (two_blocks, syserr)))
    ⊎ ((m' : Memory) × Returned 4096 16384 16 4112 two_blocks.blocks m'.blocks
        × IsHeap 4096 16384 m'
        × (m'.total ≡ add32 two_blocks.total 16)
        × (freemem two_blocks 4112 10 ≡ (m', ok)))
freemem-Returned_example =
    freemem-Returned 4096 16384 4112 10 two_blocks two_blocks-IsHeap (omega arith) (omega arith)
      (omega arith) (omega arith) (omega arith) (omega arith)

-- The block joins the one in front of it.
freemem-joins :
    (freemem two_blocks 4112 10).0.blocks
    ≡ record { addr = 4096; mlength = 32 } ∷ record { addr = 8192; mlength = 64 } ∷ []
unfolding freemem put_block put_after put_behind join_next
freemem-joins = refl

-- The stack comes from the top of the last block.
getstk-last : (getstk two_blocks 20).1 ≡ 8192 + 64 - 4
unfolding getstk last_fit
getstk-last = refl

-- ===== src/FreeList/Free.antt =====
-- The contract of `freemem`.
use os_demand_paging.FreeList.Join.{Overlap, Put, before-Put, behind-Put, Returned}
use os_demand_paging.FreeList.{freemem, Memory, put_after, put_block, roundmb, Block}
use mathlib.Core.Path.{subst}
use os_demand_paging.FreeList.Cover.{covered, IsHeap, bytes, Ascending}
use os_demand_paging.Base.{
  ltb, ok, refl, inl, inr, [], ◌∷◌, none, some, false, add32, ℕ, ◌<◌, ◌^◌, ◌+◌, ◌≤◌, List, Option,
  ◌≡◌, syserr, arith, ◌⊎◌, Bool-cases, ltb, ok, ◌==◌, ◌||◌,
}

module _ (hi n blk : ℕ) (small : hi < 2 ^ 32) (pos : 0 < n) (le : blk + n ≤ hi) where
  -- A block that is passed by stays.
  passed-Put :
      (lo : ℕ) (prev : Block) (bs : List Block) (r : Option (List Block))
      → (lo ≤ prev.addr) × (0 < prev.mlength)
      → prev.addr + prev.mlength ≤ blk
      → Put (prev.addr + prev.mlength) hi n blk bs r
      → Put lo hi n blk (prev ∷ bs) (elim r [ none ↦ none | some bs' ↦ some (prev ∷ bs') ])
  unfolding covered bytes
  passed-Put lo prev bs none h above (c, inside, free) = (c, inside, ground (arith, free))
  passed-Put lo prev bs (some bs') h above p = record {
    blocks = (h.0, h.1, p.blocks);
    sum = omega (arith, p.sum);
    were_taken = λ c w. ground (arith, p.were_taken c w);
    cover = λ c. ground (arith, p.cover c);
  }

  put_after-Put :
      (lo : ℕ) (prev : Block) (bs : List Block)
      → prev.addr < blk
      → Ascending lo hi (prev ∷ bs)
      → Put lo hi n blk (prev ∷ bs) (put_after prev blk n bs)
  unfolding put_after
  put_after-Put lo prev [] lt h = behind-Put hi n blk small pos le lo prev [] lt h tt
  put_after-Put lo prev (next ∷ bs) lt h = elim (Bool-cases (ltb next.addr blk)) [
    | inl pass ↦
        rw (pass, put_after)
          (passed-Put lo prev (next ∷ bs) (put_after next blk n bs) (h.0, h.1)
            (ground (arith, h.2.0))
            (put_after-Put (prev.addr + prev.mlength) next bs (ground arith) h.2))
    | inr stop ↦
        rw (stop, put_after)
          (behind-Put hi n blk small pos le lo prev (next ∷ bs) lt h (ground arith))
  ]

  put_block-Put :
      (lo : ℕ) (bs : List Block)
      → lo ≤ blk
      → Ascending lo hi bs
      → Put lo hi n blk bs (put_block blk n bs)
  unfolding put_block
  put_block-Put lo [] l h = before-Put hi n blk small pos le lo [] l h tt
  put_block-Put lo (next ∷ bs) l h = elim (Bool-cases (ltb next.addr blk)) [
    | inl pass ↦ rw pass (put_after-Put lo next bs (ground arith) h)
    | inr stop ↦ rw stop (before-Put hi n blk small pos le lo (next ∷ bs) l h (ground arith))
  ]

-- `freemem` of some bytes of the heap, rounded up to a multiple of 8, fails and changes nothing only
-- if some of them are free already. Otherwise they are free from then on, and no other byte changes;
-- the free list stays in order and without overlap, and its length field, which may have any value,
-- goes up by their number, modulo 2^32.
pub freemem-Returned :
    (lo hi blk nbytes : ℕ) (m : Memory)
    → IsHeap lo hi m
    → 0 < nbytes
    → nbytes + 7 < 2 ^ 32
    → lo ≤ blk
    → blk + roundmb nbytes ≤ hi
    → m.minheap ≤ blk
    → blk ≤ m.maxheap
    → (Overlap (roundmb nbytes) blk m.blocks × (freemem m blk nbytes ≡ (m, syserr)))
      ⊎ ((m' : Memory) × Returned lo hi (roundmb nbytes) blk m.blocks m'.blocks
          × IsHeap lo hi m'
          × (m'.total ≡ add32 m.total (roundmb nbytes))
          × (freemem m blk nbytes ≡ (m', ok)))
unfolding freemem
freemem-Returned lo hi blk nbytes m h pos fits lower upper min max =
    go (put_block blk n m.blocks) refl
  where
    n : ℕ
    n = roundmb nbytes

    allowed : (nbytes == 0 || ltb blk m.minheap || ltb m.maxheap blk) ≡ false
    allowed = ground arith

    put : Put lo hi n blk m.blocks (put_block blk n m.blocks)
    put = put_block-Put hi n blk h.limit (omega arith) upper lo m.blocks lower h.blocks

    go :
        (r : Option (List Block))
        → put_block blk n m.blocks ≡ r
        → (Overlap n blk m.blocks × (freemem m blk nbytes ≡ (m, syserr)))
          ⊎ ((m' : Memory) × Returned lo hi n blk m.blocks m'.blocks
              × IsHeap lo hi m'
              × (m'.total ≡ add32 m.total n)
              × (freemem m blk nbytes ≡ (m', ok)))
    go none e = inl (subst (Put lo hi n blk m.blocks) e put, rw (allowed, e) refl)
    go (some bs) e =
        let p : Returned lo hi n blk m.blocks bs = subst (Put lo hi n blk m.blocks) e put in
        inr (
          record m { blocks = bs; total = add32 m.total n },
          p,
          record { limit = h.limit; blocks = p.blocks },
          refl,
          rw (allowed, e) refl,
        )

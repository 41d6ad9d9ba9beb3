-- ===== src/FreeList/Stack.antt =====
-- `getstk` against the addresses that are free.
use os_demand_paging.FreeList.{getstk, last_fit, Block, Memory, roundmb}
use os_demand_paging.FreeList.Cover.{Ascending-lower}
use os_demand_paging.FreeList.Take.{AllShorter, Fitted, Taken, whole-Taken}
use mathlib.Core.Path.{subst}
use os_demand_paging.FreeList.Cover.{covered, Ascending, Ascending-le, covered-below, IsHeap, bytes}
use os_demand_paging.Base.{
  if◌then◌else◌, add32, sub32, leb, ◌==◌, refl, inl, inr, [], ◌∷◌, none, some, false, add32, sub32,
  leb, ℕ, List, ◌+◌, ◌<◌, arith, ◌^◌, Option, ◌-◌, ◌≡◌, syserr, ◌⊎◌, ◌==◌, Bool-cases,
}

upper-Taken :
    (lo hi n : ℕ) (b : Block) (bs : List Block)
    → Ascending lo hi (b ∷ bs)
    → hi < 2 ^ 32
    → n < b.mlength
    → Taken lo hi n
        (b ∷ bs)
        (add32 b.addr (b.mlength - n))
        (record b { mlength = b.mlength - n } ∷ bs)
unfolding covered bytes
upper-Taken lo hi n b bs h small lt =
    let le = Ascending-le (b.addr + b.mlength) hi bs h.2 in
    let start : add32 b.addr (b.mlength - n) ≡ b.addr + (b.mlength - n) = omega (arith, le) in
    rw start (record {
      lower = omega (arith, h.0);
      upper = omega (arith, le);
      blocks = (
        h.0,
        omega arith,
        Ascending-lower (b.addr + b.mlength) (b.addr + (b.mlength - n)) hi bs (omega arith) h.2,
      );
      sum = omega arith;
      were_free = λ c w. ground arith;
      left = λ c. ground (arith, covered-below (b.addr + b.mlength) hi bs c h.2);
    })

-- A block behind the first is taken.
behind-Taken :
    (lo hi n a : ℕ) (b : Block) (bs bs' : List Block)
    → Ascending lo hi (b ∷ bs)
    → Taken (b.addr + b.mlength) hi n bs a bs'
    → Taken lo hi n (b ∷ bs) a (b ∷ bs')
unfolding covered bytes
behind-Taken lo hi n a b bs bs' h t = record {
  lower = omega (arith, h.0, t.lower);
  upper = t.upper;
  blocks = (h.0, h.1, t.blocks);
  sum = omega (arith, t.sum);
  were_free = λ c w. ground (arith, t.were_free c w);
  left = λ c. ground (arith, t.left c, t.lower);
}

last_fit-Fitted :
    (lo hi n : ℕ) (bs : List Block)
    → Ascending lo hi bs
    → hi < 2 ^ 32
    → Fitted lo hi n bs (last_fit n bs)
unfolding last_fit
last_fit-Fitted lo hi n [] h small = tt
last_fit-Fitted lo hi n (b ∷ bs) h small =
    go (last_fit n bs) (last_fit-Fitted (b.addr + b.mlength) hi n bs h.2 small)
  where
    go :
        (r : Option (ℕ × List Block))
        → Fitted (b.addr + b.mlength) hi n bs r
        → Fitted lo hi n (b ∷ bs) (elim r [
          | some (a, bs') ↦ some (a, b ∷ bs')
          | none ↦
              if leb n b.mlength
              then (if n == b.mlength
                  then some (b.addr, bs)
                  else (let rest = record b { mlength = b.mlength - n } in
                      some (add32 b.addr rest.mlength, rest ∷ bs)))
              else none
        ])
    go (some (a, bs')) f = behind-Taken lo hi n a b bs bs' h f
    go none f = elim (Bool-cases (leb n b.mlength)) [
      | inr short ↦ rw short (ground arith, f)
      | inl long ↦ elim (Bool-cases (n == b.mlength)) [
        | inl whole ↦ rw (long, whole) (whole-Taken lo hi n b bs h (ground arith))
        | inr part ↦ rw (long, part) (upper-Taken lo hi n b bs h small (ground arith))
      ]
    ]

-- `getstk` of some bytes, rounded up to a multiple of 8, fails and changes nothing only if no block
-- of the free list is that long. Otherwise it returns the address of the highest word of that many
-- bytes, which lie in the heap and were free; from then on these and no others are no longer free. The
-- free list stays in order and without overlap, and its length field, which may have any value, goes
-- down by their number, modulo 2^32.
pub getstk-Taken :
    (lo hi nbytes : ℕ) (m : Memory)
    → IsHeap lo hi m
    → 0 < nbytes
    → nbytes + 7 < 2 ^ 32
    → (AllShorter (roundmb nbytes) m.blocks × (getstk m nbytes ≡ (m, syserr)))
      ⊎ ((a : ℕ) × (m' : Memory) × Taken lo hi (roundmb nbytes) m.blocks a m'.blocks
          × IsHeap lo hi m'
          × (m'.total ≡ sub32 m.total (roundmb nbytes))
          × (getstk m nbytes ≡ (m', a + roundmb nbytes - 4)))
unfolding getstk
getstk-Taken lo hi nbytes m h pos fits = go (last_fit n m.blocks) refl
  where
    n : ℕ
    n = roundmb nbytes

    nonzero : (nbytes == 0) ≡ false
    nonzero = ground arith

    fitted : Fitted lo hi n m.blocks (last_fit n m.blocks)
    fitted = last_fit-Fitted lo hi n m.blocks h.blocks h.limit

    go :
        (r : Option (ℕ × List Block))
        → last_fit n m.blocks ≡ r
        → (AllShorter n m.blocks × (getstk m nbytes ≡ (m, syserr)))
          ⊎ ((a : ℕ) × (m' : Memory) × Taken lo hi n m.blocks a m'.blocks
              × IsHeap lo hi m'
              × (m'.total ≡ sub32 m.total n)
              × (getstk m nbytes ≡ (m', a + n - 4)))
    go none e = inl (subst (Fitted lo hi n m.blocks) e fitted, rw (nonzero, e) refl)
    go (some (a, bs)) e =
        let t : Taken lo hi n m.blocks a bs = subst (Fitted lo hi n m.blocks) e fitted in
        let top : sub32 (add32 a n) 4 ≡ a + n - 4 = omega (arith, t.upper, h.limit) in
        inr (
          a,
          record m { blocks = bs; total = sub32 m.total n },
          t,
          record { limit = h.limit; blocks = t.blocks },
          refl,
          rw (nonzero, e, top) refl,
        )

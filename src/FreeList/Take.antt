-- ===== src/FreeList/Take.antt =====
-- `getmem` against the addresses that are free.
use os_demand_paging.FreeList.{first_fit, Block, getmem, Memory, roundmb}
use os_demand_paging.FreeList.Cover.{
  covered, Ascending, within, Ascending-le, Ascending-lower, covered-below, bytes, IsHeap,
}
use os_demand_paging.FreeList.Cover.{
  within, covered, Ascending, Ascending-le, Ascending-lower, covered-below,
}
use mathlib.Core.Path.{subst}
use os_demand_paging.Base.{
  refl, sub32, none, some, false, if◌then◌else◌, inl, inr, [], ◌∷◌, ℕ, List, Option, ◌<◌, ◌≤◌, some,
  ◌+◌, ◌^◌, ◌≡◌, Bool-cases, add32, arith, true, ◌-◌, ◌==◌, ltb, syserr, ◌⊎◌, sub32,
}

-- No block is large enough.
abbrev pub AllShorter : ℕ → List Block → Type 0
AllShorter n [] = Unit {0}
AllShorter n (b ∷ bs) = (b.mlength < n) × AllShorter n bs

-- `n` bytes from `a` on, which were free, are taken, and nothing else.
pub record Taken (lo hi n : ℕ) (bs : List Block) (a : ℕ) (bs' : List Block) : Type 0 where
  pub lower : lo ≤ a
  pub upper : a + n ≤ hi
  pub blocks : Ascending lo hi bs'
  pub sum : bytes bs' + n ≡ bytes bs
  pub were_free : (c : ℕ) → within a n c ≡ true → covered bs c ≡ true
  pub left : (c : ℕ) → covered bs' c ≡ (if within a n c then false else covered bs c)

abbrev pub Fitted : ℕ → ℕ → ℕ → List Block → Option (ℕ × List Block) → Type 0
Fitted lo hi n bs none = AllShorter n bs
Fitted lo hi n bs (some r) = Taken lo hi n bs r.0 r.1

-- The rest of the list, behind a block that is too short.
skip-Fitted :
    (lo hi n : ℕ) (b : Block) (bs : List Block) (r : Option (ℕ × List Block))
    → Ascending lo hi (b ∷ bs)
    → b.mlength < n
    → Fitted (b.addr + b.mlength) hi n bs r
    → Fitted lo hi n (b ∷ bs) (elim r [ none ↦ none | some (a, bs') ↦ some (a, b ∷ bs') ])
unfolding covered bytes
skip-Fitted lo hi n b bs none h short f = (short, f)
skip-Fitted lo hi n b bs (some (a, bs')) h short f = record {
  lower = omega (arith, h.0, f.lower);
  upper = f.upper;
  blocks = (h.0, h.1, f.blocks);
  sum = omega (arith, f.sum);
  were_free = λ c w. ground (arith, f.were_free c w);
  left = λ c. ground (arith, f.left c, f.lower);
}

pub whole-Taken :
    (lo hi n : ℕ) (b : Block) (bs : List Block)
    → Ascending lo hi (b ∷ bs)
    → b.mlength ≡ n
    → Taken lo hi n (b ∷ bs) b.addr bs
unfolding covered bytes
whole-Taken lo hi n b bs h e = record {
  lower = h.0;
  upper = omega (arith, Ascending-le (b.addr + b.mlength) hi bs h.2);
  blocks = Ascending-lower (b.addr + b.mlength) lo hi bs (omega (arith, h.0)) h.2;
  sum = omega arith;
  were_free = λ c w. ground arith;
  left = λ c. ground (arith, covered-below (b.addr + b.mlength) hi bs c h.2);
}

part-Taken :
    (lo hi n : ℕ) (b : Block) (bs : List Block)
    → Ascending lo hi (b ∷ bs)
    → hi < 2 ^ 32
    → 0 < n
    → n < b.mlength
    → Taken lo hi n (b ∷ bs) b.addr (record { addr = add32 b.addr n; mlength = b.mlength - n } ∷ bs)
unfolding covered bytes
part-Taken lo hi n b bs h small pos lt =
    let le = Ascending-le (b.addr + b.mlength) hi bs h.2 in
    let start : add32 b.addr n ≡ b.addr + n = omega (arith, le) in
    let end : b.addr + n + (b.mlength - n) ≡ b.addr + b.mlength = omega arith in
    rw start (record {
      lower = h.0;
      upper = omega (arith, le);
      blocks = (omega (arith, h.0), omega arith, rw end h.2);
      sum = omega arith;
      were_free = λ c w. ground arith;
      left = λ c. ground (arith, covered-below (b.addr + b.mlength) hi bs c h.2);
    })

first_fit-Fitted :
    (lo hi n : ℕ) (bs : List Block)
    → Ascending lo hi bs
    → hi < 2 ^ 32
    → 0 < n
    → Fitted lo hi n bs (first_fit n bs)
unfolding first_fit
first_fit-Fitted lo hi n [] h small pos = tt
first_fit-Fitted lo hi n (b ∷ bs) h small pos = elim (Bool-cases (b.mlength == n)) [
  | inl whole ↦ rw (whole, first_fit) (whole-Taken lo hi n b bs h (ground arith))
  | inr other ↦ elim (Bool-cases (ltb n b.mlength)) [
    | inl part ↦ rw (other, part, first_fit) (part-Taken lo hi n b bs h small pos (ground arith))
    | inr short ↦
        rw (other, short, first_fit)
          (skip-Fitted lo hi n b bs (first_fit n bs) h (ground arith)
            (first_fit-Fitted (b.addr + b.mlength) hi n bs h.2 small pos))
  ]
]

-- `getmem` of some bytes, rounded up to a multiple of 8, fails and changes nothing only if no block of
-- the free list is that long. Otherwise it returns the first address of that many bytes, which lie in the
-- heap and were free; from then on these and no others are no longer free. The free list stays in
-- order and without overlap, and its length field, which may have any value, goes down by their
-- number, modulo 2^32.
pub getmem-Taken :
    (lo hi nbytes : ℕ) (m : Memory)
    → IsHeap lo hi m
    → 0 < nbytes
    → nbytes + 7 < 2 ^ 32
    → (AllShorter (roundmb nbytes) m.blocks × (getmem m nbytes ≡ (m, syserr)))
      ⊎ ((a : ℕ) × (m' : Memory) × Taken lo hi (roundmb nbytes) m.blocks a m'.blocks
          × IsHeap lo hi m'
          × (m'.total ≡ sub32 m.total (roundmb nbytes))
          × (getmem m nbytes ≡ (m', a)))
unfolding getmem
getmem-Taken lo hi nbytes m h pos fits = go (first_fit n m.blocks) refl
  where
    n : ℕ
    n = roundmb nbytes

    nonzero : (nbytes == 0) ≡ false
    nonzero = ground arith

    fitted : Fitted lo hi n m.blocks (first_fit n m.blocks)
    fitted = first_fit-Fitted lo hi n m.blocks h.blocks h.limit (omega arith)

    go :
        (r : Option (ℕ × List Block))
        → first_fit n m.blocks ≡ r
        → (AllShorter n m.blocks × (getmem m nbytes ≡ (m, syserr)))
          ⊎ ((a : ℕ) × (m' : Memory) × Taken lo hi n m.blocks a m'.blocks
              × IsHeap lo hi m'
              × (m'.total ≡ sub32 m.total n)
              × (getmem m nbytes ≡ (m', a)))
    go none e = inl (subst (Fitted lo hi n m.blocks) e fitted, rw (nonzero, e) refl)
    go (some (a, bs)) e =
        let t : Taken lo hi n m.blocks a bs = subst (Fitted lo hi n m.blocks) e fitted in
        inr (
          a,
          record m { blocks = bs; total = sub32 m.total n },
          t,
          record { limit = h.limit; blocks = t.blocks },
          refl,
          rw (nonzero, e) refl,
        )

-- ===== src/FreeList/Join.antt =====
-- `freemem` against the addresses that are free.
use os_demand_paging.FreeList.{join_next, Block, put_first, put_behind}
use os_demand_paging.FreeList.Cover.{covered, within, bytes, Ascending, Ascending-le, covered-below}
use os_demand_paging.Base.{
  add32, if◌then◌else◌, ◌==◌, refl, inl, inr, [], ◌∷◌, none, some, false, true, ℕ, List, ◌<◌,
  Option, ◌^◌, ◌≡◌, ◌≤◌, ◌+◌, add32, ◌||◌, arith, Bool-cases, ltb, ◌==◌,
}

-- The `n` bytes from `blk` on, which were not free, are free, and nothing else has changed.
pub record Returned (lo hi n blk : ℕ) (bs bs' : List Block) : Type 0 where
  pub blocks : Ascending lo hi bs'
  pub sum : bytes bs' ≡ bytes bs + n
  pub were_taken : (c : ℕ) → within blk n c ≡ true → covered bs c ≡ false
  pub cover : (c : ℕ) → covered bs' c ≡ (within blk n c || covered bs c)

-- Some of the bytes are free already.
abbrev pub Overlap : ℕ → ℕ → List Block → Type 0
Overlap n blk bs = (c : ℕ) × (within blk n c ≡ true) × (covered bs c ≡ true)

abbrev pub Put : ℕ → ℕ → ℕ → ℕ → List Block → Option (List Block) → Type 0
Put lo hi n blk bs none = Overlap n blk bs
Put lo hi n blk bs (some bs') = Returned lo hi n blk bs bs'

-- The first block of the list begins at `blk` or above.
abbrev pub From : ℕ → List Block → Type 0
From blk [] = Unit {0}
From blk (b ∷ bs) = blk ≤ b.addr

pub record Joined (lo hi : ℕ) (b : Block) (bs bs' : List Block) : Type 0 where
  pub blocks : Ascending lo hi bs'
  pub sum : bytes bs' ≡ b.mlength + bytes bs
  pub cover : (c : ℕ) → covered bs' c ≡ (within b.addr b.mlength c || covered bs c)

join_next-Joined :
    (lo hi : ℕ) (b : Block) (bs : List Block)
    → Ascending lo hi (b ∷ bs)
    → hi < 2 ^ 32
    → Joined lo hi b bs (join_next b bs)
unfolding join_next covered bytes
join_next-Joined lo hi b [] h small = record { blocks = h; sum = refl; cover = λ c. refl }
join_next-Joined lo hi b (next ∷ bs) h small =
    let le = Ascending-le (next.addr + next.mlength) hi bs h.2.2 in
    let end : add32 b.addr b.mlength ≡ b.addr + b.mlength = omega (arith, le, h.2.0) in
    let sum : add32 b.mlength next.mlength ≡ b.mlength + next.mlength = omega (arith, le, h.2.0) in
    elim (Bool-cases (b.addr + b.mlength == next.addr)) [
      | inl touch ↦
          let at : b.addr + b.mlength ≡ next.addr = ground arith in
          let over : b.addr + (b.mlength + next.mlength) ≡ next.addr + next.mlength = omega arith in
          rw (end, touch, sum)
            (record {
              blocks = (h.0, omega (arith, h.1), rw over h.2.2);
              sum = omega arith;
              cover = λ c. ground arith;
            })
      | inr gap ↦ rw (end, gap) (record { blocks = h; sum = refl; cover = λ c. refl })
    ]

module _ (hi n blk : ℕ) (small : hi < 2 ^ 32) (pos : 0 < n) (le : blk + n ≤ hi) where
  -- In front of the list.
  pub before-Put :
      (lo : ℕ) (next : List Block)
      → lo ≤ blk
      → Ascending lo hi next
      → From blk next
      → Put lo hi n blk next (put_first blk n next)
  unfolding put_first covered bytes
  before-Put lo [] l h f =
      let j = join_next-Joined lo hi (record { addr = blk; mlength = n }) [] (l, pos, le) small in
      record {
        blocks = j.blocks;
        sum = omega (arith, j.sum);
        were_taken = λ c w. refl;
        cover = j.cover;
      }
  before-Put lo (next ∷ bs) l h f = elim (Bool-cases (ltb next.addr (add32 blk n))) [
    | inl over ↦ rw over (next.addr, ground arith, ground (arith, h.1))
    | inr clear ↦
        let rest : Ascending (blk + n) hi (next ∷ bs) = (ground arith, h.1, h.2) in
        let j =
          join_next-Joined lo hi (record { addr = blk; mlength = n }) (next ∷ bs) (l, pos, rest)
            small in
        rw clear (record {
          blocks = j.blocks;
          sum = omega (arith, j.sum);
          were_taken = λ c w. covered-below (blk + n) hi (next ∷ bs) c rest (ground arith);
          cover = j.cover;
        })
  ]

  -- Behind a block, with room in front of the next.
  placed-Returned :
      (lo : ℕ) (prev : Block) (next : List Block)
      → Ascending lo hi (prev ∷ next)
      → prev.addr + prev.mlength ≤ blk
      → Ascending (blk + n) hi next
      → Returned lo hi n blk (prev ∷ next) (
          if prev.addr + prev.mlength == blk
          then join_next (record prev { mlength = add32 prev.mlength n }) next
          else prev ∷ join_next (record { addr = blk; mlength = n }) next)
  unfolding covered bytes
  placed-Returned lo prev next h above room = elim (Bool-cases (prev.addr + prev.mlength == blk)) [
    | inl touch ↦
        let at : prev.addr + prev.mlength ≡ blk = ground arith in
        let sum : add32 prev.mlength n ≡ prev.mlength + n = omega arith in
        let end : prev.addr + (prev.mlength + n) ≡ blk + n = omega arith in
        let j =
          join_next-Joined lo hi (record { addr = prev.addr; mlength = prev.mlength + n }) next
            (h.0, omega (arith, h.1), rw end room) small in
        rw (touch, sum)
          (record {
            blocks = j.blocks;
            sum = omega (arith, j.sum);
            were_taken = λ c w. ground (arith, covered-below (blk + n) hi next c room);
            cover = λ c. ground (arith, j.cover c);
          })
    | inr gap ↦
        let j =
          join_next-Joined (prev.addr + prev.mlength) hi (record { addr = blk; mlength = n }) next
            (above, pos, room) small in
        rw gap (record {
          blocks = (h.0, h.1, j.blocks);
          sum = omega (arith, j.sum);
          were_taken = λ c w. ground (arith, covered-below (blk + n) hi next c room);
          cover = λ c. ground (arith, j.cover c);
        })
  ]

  -- Behind a block that begins below.
  pub behind-Put :
      (lo : ℕ) (prev : Block) (next : List Block)
      → prev.addr < blk
      → Ascending lo hi (prev ∷ next)
      → From blk next
      → Put lo hi n blk (prev ∷ next) (put_behind prev blk n next)
  unfolding put_behind covered
  behind-Put lo prev [] lt h f =
      let top : add32 prev.addr prev.mlength ≡ prev.addr + prev.mlength = omega (arith, h.2) in
      elim (Bool-cases (ltb blk (prev.addr + prev.mlength))) [
        | inl inside ↦ rw (top, inside) (blk, ground arith, ground arith)
        | inr above ↦ rw (top, above) (placed-Returned lo prev [] h (ground arith) le)
      ]
  behind-Put lo prev (next ∷ bs) lt h f =
      let top : add32 prev.addr prev.mlength ≡ prev.addr + prev.mlength =
        omega (arith, Ascending-le (prev.addr + prev.mlength) hi (next ∷ bs) h.2) in
      elim (Bool-cases (ltb blk (prev.addr + prev.mlength))) [
        | inl inside ↦ rw (top, inside) (blk, ground arith, ground arith)
        | inr above ↦ elim (Bool-cases (ltb next.addr (add32 blk n))) [
          | inl over ↦ rw (top, above, over) (next.addr, ground arith, ground (arith, h.2.1))
          | inr clear ↦
              rw (top, above, clear)
                (placed-Returned lo prev (next ∷ bs) h (ground arith) (ground arith, h.2.1, h.2.2))
        ]
      ]

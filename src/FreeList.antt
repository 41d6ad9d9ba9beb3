-- ===== src/FreeList.antt =====
-- The allocator of kernel memory: system/getmem.c, freemem.c, getstk.c with include/memory.h. The
-- linked list of free blocks is the list of its blocks, in the order of the links.
pub mod Cover
pub mod Take
pub mod Join
pub mod Free
pub mod Stack
use os_demand_paging.Base.{
  ℕ, ◌*◌, ◌-◌, ◌/◌, Bool, false, ◌||◌, Option, none, some, List, [], ◌∷◌, add32, sub32, syserr, ok,
  ltb, leb, ◌==◌, if◌then◌else◌,
}

-- `struct memblk`, with its address
pub record Block : Type 0 where
  pub addr : ℕ
  pub mlength : ℕ

-- `memlist` with its length field, and the bounds of the heap
pub record Memory : Type 0 where
  pub blocks : List Block
  pub total : ℕ
  pub minheap : ℕ
  pub maxheap : ℕ

-- `roundmb`: up to a multiple of 8
abbrev pub roundmb : ℕ → ℕ
roundmb x = add32 7 x / 8 * 8

-- The first block that is large enough: taken whole, or its lower part.
unfoldable pub first_fit : ℕ → List Block → Option (ℕ × List Block)
first_fit nbytes [] = none
first_fit nbytes (b ∷ bs) =
    let rest : Option (ℕ × List Block) = elim (first_fit nbytes bs) [
      | none ↦ none
      | some (a, bs') ↦ some (a, b ∷ bs')
    ] in
    if b.mlength == nbytes
    then some (b.addr, bs)
    else (if ltb nbytes b.mlength
        then some (b.addr, record { addr = add32 b.addr nbytes; mlength = b.mlength - nbytes } ∷ bs)
        else rest)

unfoldable pub getmem : Memory → ℕ → Memory × ℕ
getmem m nbytes = if nbytes == 0 then (m, syserr) else (elim (first_fit (roundmb nbytes) m.blocks) [
  | none ↦ (m, syserr)
  | some (a, bs) ↦ (record m { blocks = bs; total = sub32 m.total (roundmb nbytes) }, a)
])

-- The last block that is large enough: taken whole, or its upper part. The result is the address
-- of what is taken.
unfoldable pub last_fit : ℕ → List Block → Option (ℕ × List Block)
last_fit nbytes [] = none
last_fit nbytes (b ∷ bs) = elim (last_fit nbytes bs) [
  | some (a, bs') ↦ some (a, b ∷ bs')
  | none ↦
      if leb nbytes b.mlength
      then (if nbytes == b.mlength
          then some (b.addr, bs)
          else (let rest = record b { mlength = b.mlength - nbytes } in
              some (add32 b.addr rest.mlength, rest ∷ bs)))
      else none
]

-- The result is the highest word of the block.
unfoldable pub getstk : Memory → ℕ → Memory × ℕ
getstk m nbytes = if nbytes == 0 then (m, syserr) else (elim (last_fit (roundmb nbytes) m.blocks) [
  | none ↦ (m, syserr)
  | some (a, bs) ↦ (
    record m { blocks = bs; total = sub32 m.total (roundmb nbytes) },
    sub32 (add32 a (roundmb nbytes)) 4,
  )
])

-- `block` joins the block that begins where it ends.
unfoldable pub join_next : Block → List Block → List Block
join_next block [] = block ∷ []
join_next block (next ∷ bs) =
    if add32 block.addr block.mlength == next.addr
    then record block { mlength = add32 block.mlength next.mlength } ∷ bs
    else block ∷ next ∷ bs

abbrev pub overlaps_next : ℕ → ℕ → List Block → Bool
overlaps_next blk nbytes [] = false
overlaps_next blk nbytes (next ∷ bs) = ltb next.addr (add32 blk nbytes)

-- The new block goes behind `prev`: joined to it, or as a block of its own. `none` is the refusal
-- of a block that overlaps its neighbours.
unfoldable pub put_behind : Block → ℕ → ℕ → List Block → Option (List Block)
put_behind prev blk nbytes next =
    let top = add32 prev.addr prev.mlength in
    if ltb blk top || overlaps_next blk nbytes next
    then none
    else (some (
        if top == blk
        then join_next (record prev { mlength = add32 prev.mlength nbytes }) next
        else prev ∷ join_next (record { addr = blk; mlength = nbytes }) next))

-- The walk along the list, from `prev` on.
unfoldable pub put_after : Block → ℕ → ℕ → List Block → Option (List Block)
put_after prev blk nbytes [] = put_behind prev blk nbytes []
put_after prev blk nbytes (next ∷ bs) =
    let rest : Option (List Block) = elim (put_after next blk nbytes bs) [
      | none ↦ none
      | some bs' ↦ some (prev ∷ bs')
    ] in
    if ltb next.addr blk then rest else put_behind prev blk nbytes (next ∷ bs)

-- Below all other blocks there is no previous block to join: `top` is NULL, and `blk`, which is
-- at least `minheap`, is not.
unfoldable pub put_first : ℕ → ℕ → List Block → Option (List Block)
put_first blk nbytes next =
    if overlaps_next blk nbytes next
    then none
    else some (join_next (record { addr = blk; mlength = nbytes }) next)

unfoldable pub put_block : ℕ → ℕ → List Block → Option (List Block)
put_block blk nbytes [] = put_first blk nbytes []
put_block blk nbytes (next ∷ bs) =
    if ltb next.addr blk then put_after next blk nbytes bs else put_first blk nbytes (next ∷ bs)

unfoldable pub freemem : Memory → ℕ → ℕ → Memory × ℕ
freemem m blkaddr nbytes =
    if nbytes == 0 || ltb blkaddr m.minheap || ltb m.maxheap blkaddr
    then (m, syserr)
    else (elim (put_block blkaddr (roundmb nbytes) m.blocks) [
      | none ↦ (m, syserr)
      | some bs ↦ (record m { blocks = bs; total = add32 m.total (roundmb nbytes) }, ok)
    ])

-- `freestk(p, len)`
unfoldable pub freestk : Memory → ℕ → ℕ → Memory × ℕ
freestk m p len = freemem m (add32 (sub32 p (roundmb len)) 4) (roundmb len)

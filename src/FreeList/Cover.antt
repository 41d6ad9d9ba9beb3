-- ===== src/FreeList/Cover.antt =====
-- The addresses that a list of free blocks covers.
use os_demand_paging.FreeList.{Block, Memory}
use os_demand_paging.Base.{
  refl, [], ◌∷◌, List, ℕ, Bool, false, leb, ◌<◌, ◌≤◌, arith, ◌&&◌, ◌+◌, ◌||◌, ◌≡◌, ltb, ◌^◌,
}

-- Address `c` is one of the `n` from `a` on.
abbrev pub within : ℕ → ℕ → ℕ → Bool
within a n c = leb a c && ltb c (a + n)

unfoldable pub covered : List Block → ℕ → Bool
covered [] c = false
covered (b ∷ bs) c = within b.addr b.mlength c || covered bs c

-- The blocks lie between `lo` and `hi` in ascending order without overlap, and none is empty.
abbrev pub Ascending : ℕ → ℕ → List Block → Type 0
Ascending lo hi [] = lo ≤ hi
Ascending lo hi (b ∷ bs) = (lo ≤ b.addr) × (0 < b.mlength) × Ascending (b.addr + b.mlength) hi bs

pub Ascending-le : (lo hi : ℕ) (bs : List Block) → Ascending lo hi bs → lo ≤ hi
Ascending-le lo hi [] h = h
Ascending-le lo hi (b ∷ bs) h = omega (arith, h.0, Ascending-le (b.addr + b.mlength) hi bs h.2)

pub Ascending-lower :
    (lo lo' hi : ℕ) (bs : List Block) → lo' ≤ lo → Ascending lo hi bs → Ascending lo' hi bs
Ascending-lower lo lo' hi [] l h = omega arith
Ascending-lower lo lo' hi (b ∷ bs) l h = (omega (arith, h.0), h.1, h.2)

-- Below its first block a list covers nothing.
pub covered-below :
    (lo hi : ℕ) (bs : List Block) (c : ℕ) → Ascending lo hi bs → c < lo → covered bs c ≡ false
unfolding covered
covered-below lo hi [] c h l = refl
covered-below lo hi (b ∷ bs) c h l =
    ground (arith, h.0, covered-below (b.addr + b.mlength) hi bs c h.2 (omega (arith, h.0)))

-- The bytes of all blocks.
unfoldable pub bytes : List Block → ℕ
bytes [] = 0
bytes (b ∷ bs) = b.mlength + bytes bs

pub bytes-le : (lo hi : ℕ) (bs : List Block) → Ascending lo hi bs → lo + bytes bs ≤ hi
unfolding bytes
bytes-le lo hi [] h = omega arith
bytes-le lo hi (b ∷ bs) h = omega (arith, h.0, bytes-le (b.addr + b.mlength) hi bs h.2)

-- The free list of memory between `lo` and `hi`.
pub record IsHeap (lo hi : ℕ) (m : Memory) : Type 0 where
  pub limit : hi < 2 ^ 32
  pub blocks : Ascending lo hi m.blocks

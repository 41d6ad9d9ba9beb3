-- ===== src/Paging/Bytes.antt =====
-- Words at any byte address. An address that is not a multiple of 4 reads and writes parts of two
-- words, the lower bytes first.
use os_demand_paging.Paging.Entry.{Mem}
use os_demand_paging.Base.{refl, ◌≡◌, ℕ, ◌+◌, ◌^◌, if◌then◌else◌, ◌*◌, ◌/◌, put, ◌%◌, ◌==◌, ◌-◌}

-- The two words at an address, as one number, and the weight of the byte at the address in it.
abbrev pub pair_at : Mem → ℕ → ℕ
pair_at m a = m (a / 4) + 2 ^ 32 * m (a / 4 + 1)

abbrev pub weight : ℕ → ℕ
weight a = 2 ^ (8 * (a % 4))

-- `*(uint32 *)a`
unfoldable pub load : Mem → ℕ → ℕ
load m a = if a % 4 == 0 then m (a / 4) else pair_at m a / weight a % 2 ^ 32

-- `*(uint32 *)a = v`
unfoldable pub store : Mem → ℕ → ℕ → Mem
store m a v =
    if a % 4 == 0
    then put m (a / 4) v
    else (let w = weight a in
        let p = pair_at m a % w + w * v + w * 2 ^ 32 * (pair_at m a / (w * 2 ^ 32)) in
        put (put m (a / 4) (p % 2 ^ 32)) (a / 4 + 1) (p / 2 ^ 32))

-- The lowest bit of the byte at `a` becomes 0, as by a write of 0 to a bit field that begins there.
unfoldable pub clear_low : Mem → ℕ → Mem
clear_low m a =
    let w = m (a / 4) in put m (a / 4) (if w / weight a % 2 == 0 then w else w - weight a)

-- At an address that is a multiple of 4.
pub load-aligned : (m : Mem) (a : ℕ) → a % 4 ≡ 0 → load m a ≡ m (a / 4)
unfolding load
load-aligned m a h = rw h refl

pub store-aligned : (m : Mem) (a v : ℕ) → a % 4 ≡ 0 → store m a v ≡ put m (a / 4) v
unfolding store
store-aligned m a v h = rw h refl

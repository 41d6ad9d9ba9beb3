-- ===== src/Buffer/Links.antt =====
-- The list of buffers that `mkbufpool` makes.
use mathlib.Core.Path.{subst, sym}
use os_demand_paging.Paging.Entry.{Mem}
use os_demand_paging.Buffer.{link_buffers, Mem, store}
use os_demand_paging.Paging.Bytes.{store-aligned, store}
use os_demand_paging.Base.{
  refl, zero, suc, [], ◌∷◌, ℕ, ◌≡◌, ◌+◌, ◌<◌, ◌*◌, ◌/◌, arith, ◌∙◌, List, ap, ◌%◌, ◌^◌, add32,
  put_self, sym,
}

-- The list of free buffers that begins at `head`.
abbrev pub Links : Mem → ℕ → List ℕ → Type 0
Links m head [] = head ≡ 0
Links m head (b ∷ bs) = (head ≡ b) × Links m (m (b / 4)) bs

-- `n` buffers of `size` bytes, one behind the other.
unfoldable pub buffers : ℕ → ℕ → ℕ → List ℕ
buffers buf size zero = []
buffers buf size (suc n) = buf ∷ buffers (buf + size) size n

-- The words below the buffers stay.
link_buffers-below :
    (n buf size w : ℕ) (m : Mem)
    → buf % 4 ≡ 0
    → size % 4 ≡ 0
    → buf + n * size < 2 ^ 32
    → w < buf / 4
    → link_buffers n buf size m w ≡ m w
unfolding link_buffers
link_buffers-below zero buf size w m al sl fits low =
    ap (λ t. t w) (store-aligned m buf 0 al) ∙ ground arith
link_buffers-below (suc n) buf size w m al sl fits low =
    let more : size + n * size ≡ suc n * size = grind arith in
    let next : add32 buf size ≡ buf + size = omega arith in
    rw next (
      link_buffers-below n (buf + size) size w (store m buf (buf + size)) (omega arith) sl
        (omega arith) (omega arith)
      ∙ ap (λ t. t w) (store-aligned m buf (buf + size) al)
      ∙ ground arith)

-- The list that `mkbufpool` makes has every buffer of the pool, in the order of the addresses.
pub link_buffers-Links :
    (n buf size : ℕ) (m : Mem)
    → buf % 4 ≡ 0
    → size % 4 ≡ 0
    → 0 < size
    → buf + n * size < 2 ^ 32
    → Links (link_buffers n buf size m) buf (buffers buf size (suc n))
unfolding link_buffers buffers
link_buffers-Links zero buf size m al sl pos fits =
    (refl, ap (λ t. t (buf / 4)) (store-aligned m buf 0 al) ∙ put_self m (buf / 4) 0)
link_buffers-Links (suc n) buf size m al sl pos fits =
    let more : size + n * size ≡ suc n * size = grind arith in
    let next : add32 buf size ≡ buf + size = omega arith in
    let m1 = store m buf (buf + size) in
    let kept : link_buffers n (buf + size) size m1 (buf / 4) ≡ buf + size =
      link_buffers-below n (buf + size) size (buf / 4) m1 (omega arith) sl (omega arith)
        (omega arith)
      ∙ ap (λ t. t (buf / 4)) (store-aligned m buf (buf + size) al)
      ∙ put_self m (buf / 4) (buf + size) in
    let rest = link_buffers-Links n (buf + size) size m1 (omega arith) sl pos (omega arith) in
    let m' = link_buffers n (buf + size) size m1 in
    let step : link_buffers (suc n) buf size m ≡ m' =
      ap (λ a. link_buffers n a size (store m buf a)) next in
    subst (λ t. Links t buf (buffers buf size (suc (suc n)))) (sym step)
      (refl, subst (λ h. Links m' h (buffers (buf + size) size (suc n))) (sym kept) rest)

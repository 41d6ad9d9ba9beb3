-- ===== src/Paging/Alloc/Copy.antt =====
-- The copy of a frame.
use os_demand_paging.Base.{
  ℕ, ◌+◌, ◌-◌, ◌*◌, ◌/◌, ◌<◌, ◌≡◌, ◌≢◌, ◌&&◌, arith, put, ltb, leb, for_range_inv, if◌then◌else◌,
}
use os_demand_paging.Paging.Entry.{Mem}
use os_demand_paging.Paging.Alloc.{copy_frame}

-- Frame `dst` of `m'` has the contents of frame `src` of `m`.
abbrev pub SamePage : Mem → ℕ → Mem → ℕ → Type 0
SamePage m src m' dst = (w : ℕ) → w < 1024 → m' (dst * 1024 + w) ≡ m (src * 1024 + w)

abbrev Copied : Mem → ℕ → ℕ → ℕ → Mem → Type 0
Copied m src dst n m' =
    (a : ℕ)
    → m' a ≡ (
        if leb (dst * 1024) a && ltb a (dst * 1024 + n)
        then m (src * 1024 + (a - dst * 1024))
        else m a)

copy_step-Copied :
    (m m' : Mem) (src dst n : ℕ)
    → src ≢ dst
    → n < 1024
    → Copied m src dst n m'
    → Copied m src dst (n + 1) (put m' (dst * 1024 + n) (m' (src * 1024 + n)))
copy_step-Copied m m' src dst n apart h c a = ground (arith, c a, c (src * 1024 + n))

-- `bcopy` of one frame to another copies the frame, and writes nowhere else.
pub copy_frame_lem :
    (m : Mem) (src dst : ℕ) → src ≢ dst → Copied m src dst 1024 (copy_frame m src dst)
unfolding copy_frame
copy_frame_lem m src dst apart =
    for_range_inv (Copied m src dst) _ 0 1024
      (λ i m' lo hi c. copy_step-Copied m m' src dst i apart hi c) 1024 0 1024 m (omega arith)
      (omega arith) (omega arith) (λ a. ground arith)

-- Both outcomes for memory: the copy made, or found up to date.
pub record Saved (m : Mem) (src dst : ℕ) (m' : Mem) : Type 0 where
  pub kept : SamePage m src m' dst
  pub elsewhere : (a : ℕ) → a / 1024 ≢ dst → m' a ≡ m a

pub copy_frame-Saved : (m : Mem) (src dst : ℕ) → src ≢ dst → Saved m src dst (copy_frame m src dst)
copy_frame-Saved m src dst apart = record {
  kept = λ w h. ground (arith, copy_frame_lem m src dst apart (dst * 1024 + w));
  elsewhere = λ a h. ground (arith, copy_frame_lem m src dst apart a);
}

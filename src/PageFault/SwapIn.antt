-- ===== src/PageFault/SwapIn.antt =====
-- A page fault on a page that was evicted to the swap area.
use os_demand_paging.Base.{
  ==_iff, ne→==, ℕ, ◌+◌, ◌*◌, ◌/◌, ◌%◌, ◌^◌, ◌≤◌, ◌<◌, ◌≡◌, ◌≢◌, ◌∙◌, ap, true, false, arith, Table,
  put_self, put_ne, syserr, minus_one, ◌==◌, if◌then◌else◌, add32, for_range_inv, Bool-cases, inl,
  inr, mul32,
}
use os_demand_paging.Paging.Entry.{Mem, Pt, pt_at, decode_pt, encode_pt, decode-encode_pt, pd_at}
use os_demand_paging.Paging.Fill.{empty_pt, set_pte}
use os_demand_paging.Paging.Frames.{
  page_size, max_swap_size, pt_start, ffs_start, swap_start, Frame, Vm,
}
use os_demand_paging.Paging.Alloc.{get_phy_fr_num, copy_frame, holds_page}
use os_demand_paging.Paging.Alloc.Copy.{SamePage, copy_frame-Saved}
use os_demand_paging.Paging.Alloc.Evict.{InPtArea}
use os_demand_paging.Paging.Alloc.Latency.{Claimed}
use os_demand_paging.Paging.Alloc.Coherent.{Coherent, SwappedOut, Kept, take_ffs_frame-Kept}
use os_demand_paging.PageFault.{
  Garbage, pt_offset, virt_word, last_swap, served, swap_in, serve, pd_at, with_table, pde_addr,
}

-- The entry that `set_pte` writes.
abbrev pub present : ℕ → Pt
present fr = record empty_pt { pt_pres = 1; pt_write = 1; pt_base = fr }

set_pte_self : (m : Mem) (a fr : ℕ) → fr < 2 ^ 20 → pt_at (set_pte m a fr).0 a ≡ present fr
unfolding set_pte
set_pte_self m a fr h =
    ap decode_pt (put_self m (a / 4) (encode_pt (present fr)))
    ∙ decode-encode_pt (present fr) (omega arith)

set_pte_ne : (m : Mem) (a fr b : ℕ) → b ≢ a / 4 → (set_pte m a fr).0 b ≡ m b
unfolding set_pte
set_pte_ne m a fr b h = put_ne m (a / 4) b _ h

-- The offset is read back as it was stored.
virt_word-pt_offset : (ptr : ℕ) → virt_word ptr / 4096 % 1024 ≡ pt_offset ptr
virt_word-pt_offset ptr = omega arith

last_swap_unique :
    (t : Table Frame) (pid vpn n : ℕ)
    → n < max_swap_size
    → holds_page pid vpn (t n) ≡ true
    → ((j : ℕ) → holds_page pid vpn (t j) ≡ true → j ≡ n)
    → last_swap t pid vpn ≡ (swap_start + n) * page_size
unfolding last_swap
last_swap_unique t pid vpn n lt held unique =
    (for_range_inv Seen body 0 max_swap_size keep max_swap_size 0 max_swap_size minus_one
        (omega arith) (omega arith) (omega arith) (λ h. absurd (omega arith)))
      lt
  where
    body : ℕ → ℕ → ℕ
    body i sw = if holds_page pid vpn (t i) then (swap_start + i) * page_size else sw

    Seen : ℕ → ℕ → Type 0
    Seen i sw = n < i → sw ≡ (swap_start + n) * page_size

    keep : (i sw : ℕ) → 0 ≤ i → i < max_swap_size → Seen i sw → Seen (i + 1) (body i sw)
    keep i sw lo hi seen h = elim (Bool-cases (holds_page pid vpn (t i))) [
      | inl hit ↦ rw hit (ap (λ j. (swap_start + j) * page_size) (unique i hit))
      | inr miss ↦ rw miss (seen (ground (arith, held, miss)))
    ]

-- What the handler leaves when it has brought page `vpn` back from frame `n` of the swap area into
-- frame `i` of the FFS area: the frame is the page's, has its contents, and the entry at `pte` maps
-- it, present, writable and clean.
pub record SwappedIn (s : Vm) (pid vpn n pte : ℕ) (s' : Vm) (i : ℕ) : Type 0 where
  pub claimed : Claimed s' i pid vpn
  pub page : SamePage s.mem (swap_start + n) s'.mem (ffs_start + i)
  pub entry : pt_at s'.mem pte ≡ present (ffs_start + i)

-- The word at `virt_addr` holds the offsets, below the page tables.
pub record Stored (u : Garbage) (ptr : ℕ) (s : Vm) : Type 0 where
  pub wild : u.virt_addr < pt_start * 4096
  pub word : s.mem (u.virt_addr / 4) ≡ virt_word ptr

-- The copy, and the entry.
restored-SwappedIn :
    (s s1 : Vm) (pid vpn n pte i : ℕ)
    → n < max_swap_size
    → Kept s s1 pid vpn n i
    → InPtArea pte
    → SwappedIn s pid vpn n pte
        (record s1 {
          mem =
              (set_pte (copy_frame s1.mem (swap_start + n) (ffs_start + i)) pte (ffs_start + i)).0;
        })
        i
restored-SwappedIn s s1 pid vpn n pte i ln kept area =
    let lt = kept.claimed.index_lt in
    let m = copy_frame s1.mem (swap_start + n) (ffs_start + i) in
    record {
      claimed = record {
        index_lt = lt;
        owner = kept.claimed.owner;
        number = kept.claimed.number;
        isfree = kept.claimed.isfree;
        latency = kept.claimed.latency;
      };
      page = λ w h.
          set_pte_ne m pte (ffs_start + i) _ (omega (arith, area.below))
          ∙ (copy_frame-Saved s1.mem (swap_start + n) (ffs_start + i) (omega arith)).kept w h
          ∙ kept.page w h;
      entry = set_pte_self m pte (ffs_start + i) (omega arith);
    }

module _ (pdbrs : Table ℕ) (u : Garbage) (pid vpn pdbr ptr : ℕ) (s : Vm) (n : ℕ) where
  swap_in-SwappedIn :
      (table : ℕ)
      → Coherent pdbrs s
      → SwappedOut s pid vpn n
      → Stored u ptr s
      → InPtArea (add32 table (4 * pt_offset ptr))
      → (i : ℕ) × (s' : Vm) × SwappedIn s pid vpn n (add32 table (4 * pt_offset ptr)) s' i
        × (swap_in pdbrs u pid vpn pdbr ptr table ((swap_start + n) * page_size) s ≡ served s')
  unfolding swap_in get_phy_fr_num
  swap_in-SwappedIn table co out st area =
      let (i, s1, kept, e) = take_ffs_frame-Kept pdbrs s u.for_frame pid vpn n co out in
      let src : (swap_start + n) * page_size / page_size ≡ swap_start + n = omega arith in
      let good : (ffs_start + i == syserr) ≡ false = ground (arith, kept.claimed.index_lt) in
      let saved =
        copy_frame-Saved s1.mem (swap_start + n) (ffs_start + i)
          (omega (arith, kept.claimed.index_lt)) in
      let offset : copy_frame s1.mem (swap_start + n) (ffs_start + i) (u.virt_addr / 4)
            / 4096
            % 1024
          ≡ pt_offset ptr =
        ap (λ x. x / 4096 % 1024)
          (saved.elsewhere _ (omega (arith, st.wild))
            ∙ kept.low _ (omega (arith, st.wild))
            ∙ st.word)
        ∙ virt_word-pt_offset ptr in
      (
        i,
        _,
        restored-SwappedIn s s1 pid vpn n _ i out.index_lt kept area,
        rw (e, good, src, offset),
      )

  -- The address of the page's entry, in the page table that the directory names.
  abbrev pub pte_of : ℕ
  pte_of =
      add32 (mul32 (pd_at s.mem (pde_addr pdbrs u pid vpn pdbr ptr)).pd_base page_size)
        (4 * pt_offset ptr)

  -- A fault on a page that is swapped out brings it back: in a coherent state, if the page table is
  -- there, the page's entry lies in the page table area and is not present, and the page has one
  -- frame of the swap area, the handler serves the fault with an FFS frame that has the contents of
  -- that swap frame, and the entry maps this frame. It neither fails nor takes an empty frame. This
  -- is for an uninitialised pointer `virt_addr` that happens to point below the page table area, to
  -- a word that holds the offsets of the address, which the handler has stored there before; for
  -- other values it may write another entry.
  pub serve-SwappedIn :
      (pd_at s.mem (pde_addr pdbrs u pid vpn pdbr ptr)).pd_pres ≢ 0
      → (pt_at s.mem pte_of).pt_pres ≡ 0
      → Coherent pdbrs s
      → SwappedOut s pid vpn n
      → ((j : ℕ) → holds_page pid vpn (s.stab j) ≡ true → j ≡ n)
      → Stored u ptr s
      → InPtArea pte_of
      → (i : ℕ) × (s' : Vm) × SwappedIn s pid vpn n pte_of s' i
        × (serve pdbrs u pid vpn pdbr ptr s ≡ served s')
  unfolding serve with_table
  serve-SwappedIn there absent co out unique st area =
      let (i, s', back, e) =
        swap_in-SwappedIn
          (mul32 (pd_at s.mem (pde_addr pdbrs u pid vpn pdbr ptr)).pd_base page_size) co out st
          area in
      let slot = last_swap_unique s.stab pid vpn n out.index_lt out.held unique in
      let found : ((swap_start + n) * page_size == minus_one) ≡ false =
        ground (arith, out.index_lt) in
      let table : ((pd_at s.mem (pde_addr pdbrs u pid vpn pdbr ptr)).pd_pres == 0) ≡ false =
        ne→== _ _ there in
      let gone : ((pt_at s.mem pte_of).pt_pres == 0) ≡ true = (==_iff _ _).1 absent in
      (i, s', back, rw (table, gone, slot, found) e)

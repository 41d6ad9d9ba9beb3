-- ===== src/Paging/Alloc/Evict.antt =====
-- What an eviction keeps: the page, in the swap area, and where its entry finds it.
use os_demand_paging.Base.{
  ne→==, syserr, ◌!=◌, refl, ℕ, ◌+◌, ◌*◌, ◌/◌, ◌<◌, ◌≡◌, ◌≢◌, ◌⊎◌, arith, Table, put_self, put_ne,
  ltb, ◌^◌, IsFirst, first_lem, true, false, ◌≤◌, Bool-cases, inl, inr, ◌∙◌, ap,
}
use os_demand_paging.Paging.Entry.{Mem, pt_at, decode_pt-Fits, decode-encode_pt, decode_pt}
use os_demand_paging.Paging.Frames.{max_swap_size, Frame}
use os_demand_paging.Paging.Alloc.Take.{swap_taken, IsFirstFree, take_swap_frame_lem}
use os_demand_paging.Paging.Alloc.{
  copy_frame, unmap, find_swap, Vm, swap_slot, Locals, holds_page, Victim, swap_start, evict,
  ffs_start, pt_start, max_ffs_size,
}
use os_demand_paging.Paging.Alloc.Copy.{SamePage, Saved, copy_frame-Saved}

pub unmap_ne : (m : Mem) (pte fr a : ℕ) → a ≢ pte / 4 → unmap m pte fr a ≡ m a
unfolding unmap
unmap_ne m pte fr a h = put_ne m (pte / 4) a _ h

-- The entry is as it was, but for the two fields.
pub unmap_self :
    (m : Mem) (pte fr : ℕ)
    → fr < 2 ^ 20
    → pt_at (unmap m pte fr) pte ≡ record (pt_at m pte) { pt_base = fr; pt_pres = 0 }
unfolding unmap
unmap_self m pte fr h = rw (put_self m (pte / 4)) (
    decode-encode_pt (record (pt_at m pte) { pt_base = fr; pt_pres = 0 })
      (omega (arith, decode_pt-Fits (m (pte / 4)))))

-- The swap area has a frame for the page: one that holds it, or a free one.
abbrev pub HasSlot : Table Frame → ℕ → ℕ → Type 0
HasSlot t pid vpn =
    (find_swap t pid vpn < max_swap_size) ⊎ ((i : ℕ) × IsFirstFree t max_swap_size i)

-- What `swap_slot` does.
pub record Slot (s : Vm) (pid vpn : ℕ) (s' : Vm) (i : ℕ) : Type 0 where
  pub index_lt : i < max_swap_size
  pub held : holds_page pid vpn (s'.stab i) ≡ true
  pub mem : s'.mem ≡ s.mem
  pub ftab : s'.ftab ≡ s.ftab
  pub ptab : s'.ptab ≡ s.ptab
  pub latency : s'.latency ≡ s.latency
  pub others : (j : ℕ) → j ≢ i → s'.stab j ≡ s.stab j
  pub origin : (holds_page pid vpn (s.stab i) ≡ true) ⊎ ((s.stab i).p_fm_isfree ≢ 0)

pub find_swap-IsFirst :
    (t : Table Frame) (pid vpn : ℕ)
    → IsFirst (λ i. holds_page pid vpn (t i)) 0 max_swap_size (find_swap t pid vpn)
unfolding find_swap
find_swap-IsFirst t pid vpn = first_lem _ max_swap_size 0 max_swap_size (omega arith)

-- The page keeps the swap frame that it has; otherwise it is given the first free one.
pub swap_slot_lem :
    (s : Vm) (u : Locals) (v : Victim)
    → HasSlot s.stab v.lru_fr_pid v.lru_fr_vpn
    → ((i : ℕ) × (i ≡ find_swap s.stab v.lru_fr_pid v.lru_fr_vpn)
        × Slot s v.lru_fr_pid v.lru_fr_vpn s i
        × (swap_slot s u v ≡ (s, swap_start + i, false)))
      ⊎ ((i : ℕ) × (s' : Vm) × (max_swap_size ≤ find_swap s.stab v.lru_fr_pid v.lru_fr_vpn)
          × Slot s v.lru_fr_pid v.lru_fr_vpn s' i
          × (swap_slot s u v ≡ (s', swap_start + i, true)))
unfolding swap_slot
swap_slot_lem s u v has =
    elim (Bool-cases (ltb (find_swap s.stab v.lru_fr_pid v.lru_fr_vpn) max_swap_size)) [
      | inl e ↦ inl (
        _,
        refl,
        record {
          index_lt = ground arith;
          held = (find_swap-IsFirst s.stab v.lru_fr_pid v.lru_fr_vpn).stops (ground arith);
          mem = refl;
          ftab = refl;
          ptab = refl;
          latency = refl;
          others = λ j h. refl;
          origin = inl ((find_swap-IsFirst s.stab v.lru_fr_pid v.lru_fr_vpn).stops (ground arith));
        },
        rw e,
      )
      | inr e ↦ elim (take_swap_frame_lem s u v.lru_fr_pid v.lru_fr_vpn) [
        | inl (i, f, t) ↦ inr (
          i,
          swap_taken s i v.lru_fr_pid v.lru_fr_vpn,
          ground arith,
          record {
            index_lt = f.index_lt;
            held = ground arith;
            mem = refl;
            ftab = refl;
            ptab = refl;
            latency = refl;
            others = λ j h. put_ne s.stab i j _ h;
            origin = inr f.free;
          },
          rw (e, t) (ap (λ n. (swap_taken s i v.lru_fr_pid v.lru_fr_vpn, n, true)) (omega arith)),
        )
        | inr (f, t) ↦
            absurd (elim has [ inl h ↦ ground arith | inr (i, g) ↦ g.free (f i g.index_lt) ])
      ]
    ]

-- A page table entry in the page table area.
pub record InPtArea (pte : ℕ) : Type 0 where
  pub above : pt_start * 4096 ≤ pte
  pub below : pte < ffs_start * 4096

-- The victim's page is in frame `i` of the swap area, its entry says so and that the page is
-- not present, and nothing else has changed.
pub record Evicted (s : Vm) (v : Victim) (pte : ℕ) (s' : Vm) (i : ℕ) : Type 0 where
  pub slot : Slot (record s { mem = s'.mem }) v.lru_fr_pid v.lru_fr_vpn s' i
  pub kept : SamePage s.mem (ffs_start + v.lru_fr_index) s'.mem (swap_start + i)
  pub entry : pt_at s'.mem pte ≡ record (pt_at s.mem pte) { pt_base = swap_start + i; pt_pres = 0 }
  pub elsewhere : (a : ℕ) → a ≢ pte / 4 → a / 1024 ≢ swap_start + i → s'.mem a ≡ s.mem a

-- If the page is clean and has a swap frame, that frame has the page's contents.
abbrev pub InSync : Vm → Victim → ℕ → Type 0
InSync s v pte =
    (pt_at s.mem pte).pt_dirty ≡ 0
    → (i : ℕ) → i ≡ find_swap s.stab v.lru_fr_pid v.lru_fr_vpn
    → i < max_swap_size
    → SamePage s.mem (ffs_start + v.lru_fr_index) s.mem (swap_start + i)

unmap-Evicted :
    (s s' : Vm) (v : Victim) (pte i : ℕ) (m : Mem)
    → Slot s v.lru_fr_pid v.lru_fr_vpn s' i
    → InPtArea pte
    → Saved s.mem (ffs_start + v.lru_fr_index) (swap_start + i) m
    → Evicted s v pte (record s' { mem = unmap m pte (swap_start + i) }) i
unmap-Evicted s s' v pte i m slot area saved = record {
  slot = record {
    index_lt = slot.index_lt;
    held = slot.held;
    mem = refl;
    ftab = slot.ftab;
    ptab = slot.ptab;
    latency = slot.latency;
    others = slot.others;
    origin = slot.origin;
  };
  kept = λ w h. unmap_ne m pte (swap_start + i) _ (omega (arith, slot.index_lt)) ∙ saved.kept w h;
  entry =
      unmap_self m pte (swap_start + i) (omega (arith, slot.index_lt))
      ∙ ap (λ w. record (decode_pt w) { pt_base = swap_start + i; pt_pres = 0 })
          (saved.elsewhere (pte / 4) (omega arith));
  elsewhere = λ a h g. unmap_ne m pte (swap_start + i) a h ∙ saved.elsewhere a g;
}

-- An eviction succeeds and loses nothing: provided that the victim is in the FFS area, that its
-- entry is in the page table area, that the swap area has a frame for the page, and that a swap
-- frame which already holds a clean page is up to date, the page's contents are afterwards in a
-- swap frame recorded for its process and number, its entry is not present and names that frame,
-- and every other word of memory is as it was.
pub evict-Evicted :
    (s : Vm) (u : Locals) (v : Victim) (pte : ℕ)
    → v.lru_fr_index < max_ffs_size
    → InPtArea pte
    → HasSlot s.stab v.lru_fr_pid v.lru_fr_vpn
    → InSync s v pte
    → (i : ℕ) × (s' : Vm) × Evicted s v pte s' i × (evict s u v pte ≡ (s', true))
unfolding evict
evict-Evicted s u v pte lt area has sync = elim (swap_slot_lem s u v has) [
  | inl (i, e, slot, eq) ↦ elim (Bool-cases ((pt_at s.mem pte).pt_dirty != 0)) [
    | inl dirty ↦ (
      i,
      _,
      unmap-Evicted s s v pte i _ slot area
          (copy_frame-Saved s.mem (ffs_start + v.lru_fr_index) (swap_start + i) (omega arith)),
      rw (eq, dirty),
    )
    | inr clean ↦ (
      i,
      _,
      unmap-Evicted s s v pte i s.mem slot area
          (record { kept = sync (ground arith) i e slot.index_lt; elsewhere = λ a h. refl }),
      rw (eq, clean),
    )
  ]
  | inr (i, s', none_held, slot, eq) ↦ (
    i,
    _,
    unmap-Evicted s s' v pte i (copy_frame s'.mem (ffs_start + v.lru_fr_index) (swap_start + i))
        slot area
        (rw (slot.mem)
          (copy_frame-Saved s.mem (ffs_start + v.lru_fr_index) (swap_start + i) (omega arith))),
    rw (eq, ne→== (swap_start + i) syserr (omega (arith, slot.index_lt))),
  )
]

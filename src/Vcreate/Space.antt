-- ===== src/Vcreate/Space.antt =====
-- The page tables of a process that `vcreate` makes.
use os_demand_paging.Vcreate.Rows.{Rows}
use os_demand_paging.Paging.Alloc.Take.{IsFirstFree, pt_taken, take_pt_frame_lem}
use os_demand_paging.Paging.Alloc.{Locals, is_free, take_pt_frame}
use os_demand_paging.Paging.Fill.{set_pde, empty_pd}
use os_demand_paging.Paging.Entry.{decode_pd, Mem, Pd, encode_pd}
use os_demand_paging.Paging.Frames.{Vm, TabType, max_pt_size, pt_start}
use os_demand_paging.Base.{
  ◌-◌, refl, inl, inr, if◌then◌else◌, ℕ, count_if, ◌<◌, ◌^◌, ◌*◌, ◌≡◌, arith, ◌+◌, leb, ◌&&◌,
  count_if_suc, ltb, count_if_none, ◌-◌, ◌==◌, ◌/◌, ◌∙◌,
}

-- The free frames of the page table area.
abbrev pub free_pt : Vm → ℕ
free_pt s = count_if (is_free s.ptab) max_pt_size 0

-- While a frame is free the first one is taken, and then one less is free.
pub take_pt_frame-free :
    (s : Vm) (u : Locals) (pid : ℕ) (table : TabType)
    → 0 < free_pt s
    → (i : ℕ) × IsFirstFree s.ptab max_pt_size i
      × (take_pt_frame s u pid table ≡ (pt_taken s i pid table, i + pt_start))
      × (free_pt (pt_taken s i pid table) + 1 ≡ free_pt s)
take_pt_frame-free s u pid table pos = elim (take_pt_frame_lem s u pid table) [
  | inl (i, f, e) ↦ (
    i,
    f,
    e,
    omega (
      arith,
      count_if_suc (is_free (pt_taken s i pid table).ptab) (is_free s.ptab) i max_pt_size 0
          max_pt_size (omega arith) (omega arith) f.index_lt (ground arith) (ground (arith, f.free))
          (λ k n. ground arith),
    ),
  )
  | inr (full, e) ↦
      let none_free =
        count_if_none (is_free s.ptab) max_pt_size 0 max_pt_size (omega arith)
          (λ k l. ground (arith, full k l)) in
      absurd (omega (arith, none_free))
]

-- A directory entry that names a table.
abbrev pub user_pd : ℕ → Pd
user_pd fr = record empty_pd { pd_pres = 1; pd_write = 1; pd_base = fr }

pub decode-encode_pd : (fr : ℕ) → fr < 2 ^ 20 → decode_pd (encode_pd (user_pd fr)) ≡ user_pd fr
unfolding decode_pd encode_pd
decode-encode_pd fr h = ground arith

-- Memory after one round: the entry of the directory in frame `dir`, and the table in frame `fr`.
pub round_mem :
    (v : ℕ → ℕ) (m m' : Mem) (dir fr n w : ℕ)
    → n < 1024
    → Rows v (set_pde m (dir * 4096 + 4 * n) fr).0 fr n 1024 m'
    → m' w ≡ (
        if leb (fr * 1024) w && ltb w (fr * 1024 + 1024)
        then v (n * 1024 + (w - fr * 1024))
        else (if w == dir * 1024 + n then encode_pd (user_pd fr) else m w))
unfolding set_pde
round_mem v m m' dir fr n w h r =
    let at : (dir * 4096 + 4 * n) / 4 ≡ dir * 1024 + n = omega arith in r w ∙ rw at refl

-- ===== src/Paging/Fill.antt =====
-- The functions of system/paging.c that write page directory and page table entries.
use os_demand_paging.Base.{ℕ, ◌+◌, ◌*◌, ok, for_range}
use os_demand_paging.Paging.Entry.{Mem, Pd, Pt, put_pd, put_pt}
use os_demand_paging.Paging.Frames.{num_ent_ppage}

-- `init_pde` clears the 1024 entries of the directory at `pd_base`.
abbrev pub empty_pd : Pd
empty_pd = record {
  pd_pres = 0;
  pd_write = 0;
  pd_user = 0;
  pd_pwt = 0;
  pd_pcd = 0;
  pd_acc = 0;
  pd_mbz = 0;
  pd_fmb = 0;
  pd_global = 0;
  pd_avail = 0;
  pd_base = 0;
}

unfoldable pub init_pde : Mem → ℕ → Mem × ℕ
init_pde m pd_base =
    (for_range num_ent_ppage 0 (λ i m'. put_pd m' (pd_base + 4 * i) empty_pd) m, ok)

unfoldable pub set_pde : Mem → ℕ → ℕ → Mem × ℕ
set_pde m pd_base pt_base_fr =
    (put_pd m pd_base (record empty_pd { pd_pres = 1; pd_write = 1; pd_base = pt_base_fr }), ok)

abbrev pub empty_pt : Pt
empty_pt = record {
  pt_pres = 0;
  pt_write = 0;
  pt_user = 0;
  pt_pwt = 0;
  pt_pcd = 0;
  pt_acc = 0;
  pt_dirty = 0;
  pt_mbz = 0;
  pt_global = 0;
  pt_avail = 0;
  pt_avail2 = 0;
  pt_avail3 = 0;
  pt_base = 0;
}

unfoldable pub set_pte : Mem → ℕ → ℕ → Mem × ℕ
set_pte m pt_base1 pg_num =
    (put_pt m pt_base1 (record empty_pt { pt_pres = 1; pt_write = 1; pt_base = pg_num }), ok)

unfoldable pub init_pte : Mem → ℕ → ℕ → Mem × ℕ
init_pte m pt_base1 pg_num = (put_pt m pt_base1 (record empty_pt { pt_base = pg_num }), ok)

unfoldable pub init_pte_no_base : Mem → ℕ → Mem × ℕ
init_pte_no_base m pt_base1 =
    (for_range num_ent_ppage 0 (λ i m'. put_pt m' (pt_base1 + 4 * i) empty_pt) m, ok)

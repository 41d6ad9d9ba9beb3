-- ===== src/Startup/Tables.antt =====
-- The page tables of the null process: the loops of `sysinit` over them.
use os_demand_paging.Startup.{kernel_table, add_kernel_table}
use os_demand_paging.Vcreate.Rows.{Rows, Rows-suc}
use os_demand_paging.Vcreate.Space.{free_pt, take_pt_frame-free, round_mem}
use os_demand_paging.Vcreate.Build.{Built, step-Built, no-Built}
use os_demand_paging.Paging.Frames.{Vm, pt_start, page_table, page_size}
use os_demand_paging.Paging.Alloc.{Locals}
use os_demand_paging.Paging.Fill.{set_pte, empty_pt}
use os_demand_paging.Paging.Entry.{Mem, Pt, PtFits, encode_pt}
use os_demand_paging.Base.{
  refl, ℕ, ◌≡◌, ◌+◌, ◌<◌, ◌≤◌, ◌*◌, ◌^◌, arith, for_range_inv, for_range, mul32,
}

-- The entry of page `pg`: present, writable, in the frame of the same number.
abbrev pub kernel_pt : ℕ → Pt
kernel_pt pg = record empty_pt { pt_pres = 1; pt_write = 1; pt_base = pg }

abbrev pub kernel_word : ℕ → ℕ
kernel_word pg = encode_pt (kernel_pt pg)

pub kernel_pt-Fits : (pg : ℕ) → pg < 2 ^ 20 → PtFits (kernel_pt pg)
kernel_pt-Fits pg h = omega arith

kernel_table-Rows :
    (m : Mem) (fr i : ℕ) → Rows kernel_word m fr i 1024 (kernel_table m (fr * 4096) i)
unfolding kernel_table set_pte
kernel_table-Rows m fr i =
    for_range_inv (λ j m'. Rows kernel_word m fr i j m')
      (λ j m'. (set_pte m' (fr * 4096 + 4 * j) (i * 1024 + j)).0) 0 1024
      (λ j m' lo hi r. Rows-suc kernel_word m m' _ fr i j hi r (λ w. refl)) 1024 0 1024 m
      (omega arith) (omega arith) (omega arith) (λ w. ground arith)

add_kernel_table-Built :
    (u : ℕ → Locals) (pid d i : ℕ) (s0 s : Vm)
    → (s0.ptab d).p_fm_isfree ≡ 0
    → i < 17
    → 17 ≤ free_pt s0
    → Built kernel_word d s0 i s
    → Built kernel_word d s0 (i + 1) (add_kernel_table u pid ((d + pt_start) * 4096) i s)
unfolding add_kernel_table
add_kernel_table-Built u pid d i s0 s busy lt enough b =
    let (j, f, e, cnt) = take_pt_frame-free s (u (i + 1)) pid page_table (omega (arith, b.left)) in
    let small : mul32 (j + pt_start) page_size ≡ (j + pt_start) * 4096 =
      omega (arith, f.index_lt) in
    rw (e, small)
      (step-Built kernel_word d s0 busy i pid j s _ (omega arith) f cnt refl
        (λ w.
          round_mem kernel_word s.mem _ (d + pt_start) (j + pt_start) i w (omega arith)
            (kernel_table-Rows _ (j + pt_start) i))
        b)

-- The seventeen rounds.
pub kernel_tables-Built :
    (u : ℕ → Locals) (pid d : ℕ) (s0 : Vm)
    → (s0.ptab d).p_fm_isfree ≡ 0
    → 17 ≤ free_pt s0
    → Built kernel_word d s0 17 (for_range 17 0 (add_kernel_table u pid ((d + pt_start) * 4096)) s0)
kernel_tables-Built u pid d s0 busy enough =
    for_range_inv (Built kernel_word d s0) (add_kernel_table u pid ((d + pt_start) * 4096)) 0 17
      (λ i s lo hi b. add_kernel_table-Built u pid d i s0 s busy hi enough b) 17 0 17 s0
      (omega arith) (omega arith) (omega arith) (no-Built kernel_word d s0 busy)

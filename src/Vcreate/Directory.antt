-- ===== src/Vcreate/Directory.antt =====
-- The new directory of `vcreate`, and the rounds that fill it.
use os_demand_paging.Vcreate.Space.{free_pt, take_pt_frame-free, round_mem}
use os_demand_paging.Paging.Frames.{Vm, max_pt_size, pt_start, page_table, page_size}
use os_demand_paging.Paging.Alloc.{Locals}
use os_demand_paging.Paging.Fill.{init_pde, empty_pd}
use os_demand_paging.Paging.Entry.{Mem, encode_pd, put_pd}
use os_demand_paging.Vcreate.Build.{Built, step-Built, no-Built}
use os_demand_paging.Vcreate.{add_table, Locals, Mem, init_pde, Vm}
use os_demand_paging.Vcreate.Rows.{user_word, user_table-Rows}
use os_demand_paging.Base.{
  refl, if◌then◌else◌, ℕ, ◌≡◌, ◌+◌, ◌<◌, leb, ◌*◌, ◌&&◌, ltb, ◌/◌, arith, for_range_inv, ◌≤◌,
  for_range, mul32,
}

-- A cleared directory has 1024 words 0, and the rest of memory is left.
abbrev Cleared : Mem → ℕ → ℕ → Mem → Type 0
Cleared m fr n m' = (w : ℕ) → m' w ≡ (if leb (fr * 1024) w && ltb w (fr * 1024 + n) then 0 else m w)

Cleared-suc :
    (m m' : Mem) (fr n : ℕ)
    → Cleared m fr n m'
    → Cleared m fr (n + 1) (put_pd m' (fr * 4096 + 4 * n) empty_pd)
unfolding encode_pd
Cleared-suc m m' fr n c w =
    let at : (fr * 4096 + 4 * n) / 4 ≡ fr * 1024 + n = omega arith in rw at (ground (arith, c w))

pub init_pde-Cleared : (m : Mem) (fr : ℕ) → Cleared m fr 1024 (init_pde m (fr * 4096)).0
unfolding init_pde
init_pde-Cleared m fr =
    for_range_inv (λ j m'. Cleared m fr j m') (λ j m'. put_pd m' (fr * 4096 + 4 * j) empty_pd) 0
      1024 (λ j m' lo hi r. Cleared-suc m m' fr j r) 1024 0 1024 m (omega arith) (omega arith)
      (omega arith) (λ w. ground arith)

-- A round of the loop.
add_table-Built :
    (u : ℕ → Locals) (pid d i : ℕ) (s0 s : Vm)
    → (s0.ptab d).p_fm_isfree ≡ 0
    → d < max_pt_size
    → i < 4
    → 4 ≤ free_pt s0
    → Built user_word d s0 i s
    → Built user_word d s0 (i + 1) (add_table u pid ((d + pt_start) * 4096) i s)
unfolding add_table
add_table-Built u pid d i s0 s busy dl lt enough b =
    let (j, f, e, cnt) = take_pt_frame-free s (u (i + 1)) pid page_table (omega (arith, b.left)) in
    let small : mul32 (j + pt_start) page_size ≡ (j + pt_start) * 4096 =
      omega (arith, f.index_lt) in
    rw (e, small)
      (step-Built user_word d s0 busy i pid j s _ (omega arith) f cnt refl
        (λ w.
          round_mem user_word s.mem _ (d + pt_start) (j + pt_start) i w (omega arith)
            (user_table-Rows _ (j + pt_start) i (omega arith)))
        b)

-- The four rounds.
pub tables-Built :
    (u : ℕ → Locals) (pid d : ℕ) (s0 : Vm)
    → (s0.ptab d).p_fm_isfree ≡ 0
    → d < max_pt_size
    → 4 ≤ free_pt s0
    → Built user_word d s0 4 (for_range 4 0 (add_table u pid ((d + pt_start) * 4096)) s0)
tables-Built u pid d s0 busy dl enough =
    for_range_inv (Built user_word d s0) (add_table u pid ((d + pt_start) * 4096)) 0 4
      (λ i s lo hi b. add_table-Built u pid d i s0 s busy dl hi enough b) 4 0 4 s0 (omega arith)
      (omega arith) (omega arith) (no-Built user_word d s0 busy)

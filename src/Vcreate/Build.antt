-- ===== src/Vcreate/Build.antt =====
-- The loop of `vcreate` over the page tables; the loop of `sysinit` differs in the entries.
use os_demand_paging.Paging.Entry.{encode_pd}
use os_demand_paging.Paging.Alloc.Take.{IsFirstFree, pt_taken}
use os_demand_paging.Vcreate.Space.{free_pt, user_pd}
use os_demand_paging.Paging.Frames.{Vm, max_pt_size, page_table, pt_start}
use os_demand_paging.Base.{
  refl, inl, inr, if◌then◌else◌, ◌-◌, ℕ, ◌≡◌, ◌+◌, ◌<◌, ◌≢◌, leb, ◌*◌, ◌&&◌, ltb, ◌/◌, ◌==◌, arith,
  ◌∙◌, Bool-cases,
}

-- After `n` rounds, from the state `s0` with the directory in frame `d` of the page table area: table
-- `t` is in frame `f t`, which was free; the directory names it, and it has the words `v` of row `t`.
pub record Built (v : ℕ → ℕ) (d : ℕ) (s0 : Vm) (n : ℕ) (s : Vm) : Type 0 where
  pub f : ℕ → ℕ
  pub left : free_pt s + n ≡ free_pt s0
  pub f_lt : (t : ℕ) → t < n → f t < max_pt_size
  pub f_free : (t : ℕ) → t < n → (s0.ptab (f t)).p_fm_isfree ≢ 0
  pub taken : (t : ℕ) → t < n → (s.ptab (f t)).p_fm_isfree ≡ 0
  pub old : (i : ℕ) → (s0.ptab i).p_fm_isfree ≡ 0 → (s.ptab i).p_fm_isfree ≡ 0
  pub distinct : (t u : ℕ) → t < n → u < n → f t ≡ f u → t ≡ u
  pub entry :
      (t : ℕ) → t < n → s.mem ((d + pt_start) * 1024 + t) ≡ encode_pd (user_pd (f t + pt_start))
  pub page : (t j : ℕ) → t < n → j < 1024 → s.mem ((f t + pt_start) * 1024 + j) ≡ v (t * 1024 + j)
  pub kept :
      (w : ℕ)
      → ((t : ℕ) → t < n → w / 1024 ≢ f t + pt_start)
      → ((t : ℕ) → t < n → w ≢ (d + pt_start) * 1024 + t)
      → s.mem w ≡ s0.mem w

module _ (v : ℕ → ℕ) (d : ℕ) (s0 : Vm) (busy : (s0.ptab d).p_fm_isfree ≡ 0) where
  pub no-Built : Built v d s0 0 s0
  no-Built = record {
    f = λ t. 0;
    left = omega arith;
    f_lt = λ t h. absurd (omega arith);
    f_free = λ t h. absurd (omega arith);
    taken = λ t h. absurd (omega arith);
    old = λ j h. h;
    distinct = λ t u h. absurd (omega arith);
    entry = λ t h. absurd (omega arith);
    page = λ t j h. absurd (omega arith);
    kept = λ w h g. refl;
  }

  -- One more table, in frame `i`.
  pub step-Built :
      (n pid i : ℕ) (s s' : Vm)
      → n < 1024
      → IsFirstFree s.ptab max_pt_size i
      → free_pt s' + 1 ≡ free_pt s
      → s'.ptab ≡ (pt_taken s i pid page_table).ptab
      → ((w : ℕ)
          → s'.mem w ≡ (
              if leb ((i + pt_start) * 1024) w && ltb w ((i + pt_start) * 1024 + 1024)
              then v (n * 1024 + (w - (i + pt_start) * 1024))
              else (if w == (d + pt_start) * 1024 + n
                  then encode_pd (user_pd (i + pt_start))
                  else s.mem w)))
      → Built v d s0 n s
      → Built v d s0 (n + 1) s'
  step-Built n pid i s s' lt first cnt tab mem b =
      let new : (t : ℕ) → t < n → b.f t ≢ i = λ t h e. first.free (rw (← e) (b.taken t h)) in
      let i_free : (s0.ptab i).p_fm_isfree ≢ 0 = λ e. first.free (b.old i e) in
      let not_d : i ≢ d = λ e. i_free (rw e busy) in
      record {
        f = λ t. if t == n then i else b.f t;
        left = omega (arith, b.left);
        f_lt = λ t h. ground (arith, b.f_lt t, first.index_lt);
        f_free = λ t h. ground (arith, b.f_free t, i_free);
        taken = λ t h. rw tab (ground (arith, b.taken t));
        old = λ j h. rw tab (ground (arith, b.old j h));
        distinct = λ t u ht hu e. ground (arith, b.distinct t u, new t, new u);
        entry = λ t h. mem ((d + pt_start) * 1024 + t) ∙ ground (arith, b.entry t);
        page = λ t j h l. elim (Bool-cases (t == n)) [
          | inl e ↦
              let same : t ≡ n = ground arith in
              rw e (mem ((i + pt_start) * 1024 + j) ∙ ground arith)
          | inr e ↦
              let other : t < n = ground arith in
              let not_table : b.f t ≢ d = λ q. b.f_free t other (rw q busy) in
              rw e (mem ((b.f t + pt_start) * 1024 + j) ∙ ground (arith, b.page t j, new t))
        ];
        kept = λ w h g.
            let k = b.kept w (λ t l. ground (arith, h t)) (λ t l. g t (omega arith)) in
            mem w ∙ ground (arith, h n, g n, k);
      }

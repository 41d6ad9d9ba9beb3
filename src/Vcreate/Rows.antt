-- ===== src/Vcreate/Rows.antt =====
-- A page table: 1024 entries, a row of words `v pg` for the pages `pg`. In a new process of `vcreate` they
-- map the pages to the frames of the same numbers, all free.
use os_demand_paging.Paging.Fill.{set_pte, empty_pt}
use os_demand_paging.Paging.Entry.{Mem, Pt, PtFits, encode_pt, put_pt, pt_at-put_pt}
use os_demand_paging.Vcreate.{user_entry, set_pte, user_table}
use os_demand_paging.Base.{
  true, false, refl, ℕ, ◌*◌, ◌<◌, ◌≡◌, ◌≢◌, for_range_inv, put, ◌+◌, ◌^◌, Bool, arith, ◌/◌, ◌==◌,
  put_ne, ◌∙◌, if◌then◌else◌, leb, ◌&&◌, ltb, ◌-◌,
}

-- The entry of page `pg`.
abbrev pub user_pt : ℕ → Pt
user_pt pg = record empty_pt {
  pt_pres = 1;
  pt_write = 1;
  pt_avail = 1;
  pt_avail2 = 1;
  pt_avail3 = 1;
  pt_base = pg;
}

pub user_pt-Fits : (pg : ℕ) → pg < 2 ^ 20 → PtFits (user_pt pg)
user_pt-Fits pg h = omega arith

overwrite : (m m' : Mem) (i v w : ℕ) → (w ≢ i → m w ≡ m' w) → put m i v w ≡ put m' i v w
overwrite m m' i v w h = ground (arith, h)

-- The four writes to one entry come to one.
user_entry-put :
    (m : Mem) (a pg w : ℕ)
    → pg < 2 ^ 20
    → user_entry m a pg w ≡ put m (a / 4) (encode_pt (user_pt pg)) w
unfolding user_entry set_pte
user_entry-put m a pg w h =
    let p0 : Pt = record empty_pt { pt_pres = 1; pt_write = 1; pt_base = pg } in
    let p1 = record p0 { pt_avail = 1 } in
    let p2 = record p1 { pt_avail2 = 1 } in
    let m1 = put_pt m a p0 in
    let m2 = put_pt m1 a p1 in
    let m3 = put_pt m2 a p2 in
    rw
      (
        pt_at-put_pt m a p0 (omega arith),
        pt_at-put_pt m1 a p1 (omega arith),
        pt_at-put_pt m2 a p2 (omega arith),
      )
      (overwrite m3 m (a / 4) (encode_pt (user_pt pg)) w
        (λ d. put_ne m2 (a / 4) w _ d ∙ put_ne m1 (a / 4) w _ d ∙ put_ne m (a / 4) w _ d))

-- The word of that entry.
abbrev pub user_word : ℕ → ℕ
user_word pg = encode_pt (user_pt pg)

-- Memory after the first `n` entries of row `i` at the frame `fr`.
abbrev pub Rows : (ℕ → ℕ) → Mem → ℕ → ℕ → ℕ → Mem → Type 0
Rows v m fr i n m' =
    (w : ℕ)
    → m' w
      ≡ (if leb (fr * 1024) w && ltb w (fr * 1024 + n) then v (i * 1024 + (w - fr * 1024)) else m w)

-- One more entry.
pub Rows-suc :
    (v : ℕ → ℕ) (m m' m'' : Mem) (fr i n : ℕ)
    → n < 1024
    → Rows v m fr i n m'
    → ((w : ℕ) → m'' w ≡ put m' ((fr * 4096 + 4 * n) / 4) (v (i * 1024 + n)) w)
    → Rows v m fr i (n + 1) m''
Rows-suc v m m' m'' fr i n l r e w =
    let at : (fr * 4096 + 4 * n) / 4 ≡ fr * 1024 + n = omega arith in
    e w ∙ rw at (next (w == fr * 1024 + n) refl)
  where
    next :
        (b : Bool)
        → (w == fr * 1024 + n) ≡ b
        → put m' (fr * 1024 + n) (v (i * 1024 + n)) w ≡ (
            if leb (fr * 1024) w && ltb w (fr * 1024 + (n + 1))
            then v (i * 1024 + (w - fr * 1024))
            else m w)
    next true e =
        let same : w ≡ fr * 1024 + n = ground arith in
        let here : (leb (fr * 1024) w && ltb w (fr * 1024 + (n + 1))) ≡ true = ground arith in
        let off : w - fr * 1024 ≡ n = omega arith in rw (e, here, off) refl
    next false e =
        let same : (leb (fr * 1024) w && ltb w (fr * 1024 + (n + 1)))
            ≡ (leb (fr * 1024) w && ltb w (fr * 1024 + n)) =
          ground arith in
        rw (e, same) (r w)

-- The whole table, at the frame `fr`.
pub user_table-Rows :
    (m : Mem) (fr i : ℕ) → i < 1024 → Rows user_word m fr i 1024 (user_table m (fr * 4096) i)
unfolding user_table
user_table-Rows m fr i h =
    for_range_inv (λ j m'. Rows user_word m fr i j m')
      (λ j m'. user_entry m' (fr * 4096 + 4 * j) (i * 1024 + j)) 0 1024
      (λ j m' lo hi r.
        Rows-suc user_word m m' _ fr i j hi r
          (λ w. user_entry-put m' (fr * 4096 + 4 * j) (i * 1024 + j) w (omega arith)))
      1024 0 1024 m (omega arith) (omega arith) (omega arith) (λ w. ground arith)

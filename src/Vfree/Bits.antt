-- ===== src/Vfree/Bits.antt =====
-- The free bits that `vfree` sets for pages of the first row of the virtual heap.
use os_demand_paging.Vmalloc.Run.{heap_pages, page_bit}
use os_demand_paging.Vmalloc.Tables.{HasTables, table, table_of-lt, page_bit_word}
use os_demand_paging.Paging.Entry.{
  Mem, decode_pt, encode_pt, decode-encode_pt, decode_pt-Fits, decode_pd,
}
use os_demand_paging.Vfree.{free_bits, Mem}
use os_demand_paging.Vmalloc.{table_of, check_bit}
use os_demand_paging.Base.{
  zero, suc, true, false, if◌then◌else◌, ℕ, ◌≡◌, ◌+◌, ◌<◌, leb, ◌*◌, ◌&&◌, ltb, ◌/◌, ◌==◌, arith,
  ◌≤◌, ◌∙◌, ◌^◌, ◌||◌, add32, put, ap, ◌%◌, Bool-cases, inl, inr, ◌≢◌,
}

-- A word with its first free bit set.
abbrev pub freed : ℕ → ℕ
freed v = encode_pt (record (decode_pt v) { pt_avail = 1 })

-- The words from `w` on, `n` of them, have their first free bit set.
abbrev pub FreedWords : Mem → ℕ → ℕ → Mem → Type 0
FreedWords m w n m' = (x : ℕ) → m' x ≡ (if leb w x && ltb x (w + n) then freed (m x) else m x)

pub free_bits-FreedWords :
    (n i w : ℕ) (m : Mem)
    → i + n ≤ 4096
    → w + n ≤ 2 ^ 30
    → FreedWords m w n (free_bits n i (4 * w % 2 ^ 32) m)
unfolding free_bits
free_bits-FreedWords zero i w m h l x = ground arith
free_bits-FreedWords (suc n) i w m h l x =
    let low : ltb i 4096 ≡ true = ground arith in
    let stay : (i == 4096 || i == 8192) ≡ false = ground arith in
    let here : 4 * w % 2 ^ 32 ≡ 4 * w = omega arith in
    let next : add32 (4 * w) 4 ≡ 4 * (w + 1) % 2 ^ 32 = omega arith in
    let at : 4 * w / 4 ≡ w = omega arith in
    let m' = put m w (freed (m w)) in
    let rest = free_bits-FreedWords n (i + 1) (w + 1) m' (omega arith) (omega arith) x in
    rw (here, low, stay, next, at) (rest ∙ ground arith)

-- The first free bit is that of the rows 0 to 3.
freed-bit :
    (i v : ℕ)
    → i < 12
    → table_of i ≡ 0
    → check_bit i (decode_pt (freed v)) ≡ (if i == 0 then 1 else check_bit i (decode_pt v))
freed-bit i v h t =
    let e =
      decode-encode_pt (record (decode_pt v) { pt_avail = 1 }) (ground (arith, decode_pt-Fits v)) in
    rw e (ground arith)

module _ (m m' : Mem) (pdbr p n : ℕ) (w : HasTables m pdbr) (fits : p + n ≤ 1024)
    (f : FreedWords m (table m pdbr 0 * 1024 + p) n m') where
  table-freed : (t : ℕ) → t < 4 → table m' pdbr t ≡ table m pdbr t
  table-freed t h =
      let apart = w.apart t 0 h (omega arith) in
      ap (λ x. (decode_pd x).pd_base) (f (add32 pdbr (4 * t) / 4) ∙ ground (arith, apart))

  pub page_bit-freed :
      (q : ℕ)
      → q < heap_pages
      → page_bit m' pdbr q ≡ (if leb p q && ltb q (p + n) then 1 else page_bit m pdbr q)
  page_bit-freed q h =
      let i = q / 1024 in
      let t = table_of i in
      let li : i < 12 = omega arith in
      let lt = table_of-lt i li in
      let a = table m pdbr t * 1024 + q % 1024 in
      page_bit_word m' pdbr q
      ∙ ap (λ b. check_bit i (decode_pt (m' (b * 1024 + q % 1024)))) (table-freed t lt)
      ∙ elim (Bool-cases (t == 0)) [
        | inl e ↦
            let z : t ≡ 0 = ground arith in
            let same : table m pdbr t ≡ table m pdbr 0 = ap (table m pdbr) z in
            let one = freed-bit i (m a) li z in
            ap (λ v. check_bit i (decode_pt v)) (f a)
            ∙ ground (arith, same, one, page_bit_word m pdbr q, e)
        | inr e ↦
            let other : table m pdbr t ≢ table m pdbr 0 =
              λ s. ground (arith, w.distinct t 0 lt (omega arith) s, e) in
            ap (λ v. check_bit i (decode_pt v)) (f a)
            ∙ ground (arith, other, page_bit_word m pdbr q, e)
      ]

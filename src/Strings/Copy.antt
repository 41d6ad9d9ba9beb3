-- ===== src/Strings/Copy.antt =====
-- `strncpy` against the string that it copies.
use os_demand_paging.Strings.{Bytes, times, strncpy, strncpy_loop, pad}
use os_demand_paging.Strings.Text.{IsString, IsString-keep}
use native.Mathlib.Decide.{ℕ_discrete, dec_le}
use os_demand_paging.Base.{
  ℕ, zero, suc, ◌+◌, ◌-◌, ◌<◌, ◌≤◌, ◌^◌, ◌≡◌, ◌⊎◌, List, [], ◌∷◌, length, ◌==◌, ◌&&◌, leb, ltb,
  if◌then◌else◌, false, put, put_ne, arith, ◌∙◌, for_range_inv,
}

pad-zero :
    (n : ℕ) (m : Bytes) (s c : ℕ) → pad n m s c ≡ (if leb s c && ltb c (s + n) then 0 else m c)
unfolding pad
pad-zero n m s =
    for_range_inv (λ j m'. (c : ℕ) → m' c ≡ (if leb s c && ltb c (s + j) then 0 else m c))
      (λ i m'. put m' (s + i) 0) 0 n (λ j m' lo hi h c. ground (arith, h c)) n 0 n m (omega arith)
      (omega arith) (omega arith) (λ c. ground arith)

-- The byte at `c` after a copy of `n` bytes to `s1`, from a string of `len` characters at `s2`.
abbrev pub copied : Bytes → ℕ → ℕ → ℕ → ℕ → ℕ → ℕ
copied m s1 s2 n len c =
    if leb s1 c && ltb c (s1 + n) then (if ltb (c - s1) len then m (s2 + (c - s1)) else 0) else m c

-- One byte is copied, and then the rest.
step :
    (m : Bytes) (s1 s2 n len c : ℕ)
    → (s1 + suc n ≤ s2) ⊎ (s2 + (1 + len) < s1)
    → copied (put m s1 (m s2)) (s1 + 1) (s2 + 1) n len c ≡ copied m s1 s2 (suc n) (1 + len) c
step m s1 s2 n len c apart = elim (dec_le c s1) [
  | yes low ↦ elim (ℕ_discrete c s1) [
    | yes e ↦ let off : s2 + (c - s1) ≡ s2 = omega arith in rw off (ground arith)
    | no n' ↦ ground arith
  ]
  | no high ↦
      let off : s2 + 1 + (c - (s1 + 1)) ≡ s2 + (c - s1) = omega arith in
      rw off (ground (arith, apart))
]

strncpy_loop-copied :
    (n : ℕ) (m : Bytes) (s1 s2 : ℕ) (xs : List ℕ)
    → IsString m s2 xs
    → (s1 + n ≤ s2) ⊎ (s2 + length xs < s1)
    → (c : ℕ) → strncpy_loop n m s1 s2 c ≡ copied m s1 s2 n (length xs) c
unfolding strncpy_loop
strncpy_loop-copied zero m s1 s2 xs h apart c = ground arith
strncpy_loop-copied (suc n) m s1 s2 [] h apart c =
    ground (arith, h, pad-zero n (put m s1 (m s2)) (s1 + 1) c)
strncpy_loop-copied (suc n) m s1 s2 (x ∷ xs) h apart c =
    let m' = put m s1 (m s2) in
    let rest =
      IsString-keep m m' (s2 + 1) xs (λ d lo hi. put_ne m s1 d (m s2) (ground (arith, apart)))
        h.2 in
    let ih = strncpy_loop-copied n m' (s1 + 1) (s2 + 1) xs rest (ground (arith, apart)) c in
    let more : (m s2 == 0) ≡ false = ground (arith, h.0, h.1) in
    rw (more, strncpy_loop) (ih ∙ step m s1 s2 n (length xs) c apart)

-- `strncpy` writes exactly `n` bytes: the string, as far as they go, and NULs behind it. It returns,
-- and changes no other byte. The string is to lie apart from the bytes that are written.
pub strncpy_lem :
    (n : ℕ) (m : Bytes) (s1 s2 : ℕ) (xs : List ℕ)
    → IsString m s2 xs
    → n < 2 ^ 31
    → (s1 + n ≤ s2) ⊎ (s2 + length xs < s1)
    → (c : ℕ) → strncpy m s1 s2 n c ≡ copied m s1 s2 n (length xs) c
unfolding strncpy
strncpy_lem n m s1 s2 xs h small apart c =
    let rounds : times n ≡ n = ground arith in
    rw rounds (strncpy_loop-copied n m s1 s2 xs h apart c)

-- ===== src/Strings.antt =====
-- The string functions of the C library in lib/. Memory is a table of bytes; `char` is signed. A loop
-- that ends at a NUL takes fuel, and is `none` if the fuel runs out. Addresses do not wrap.
pub mod Text
pub mod Copy
use os_demand_paging.Base.{
  ℕ, zero, suc, ◌+◌, ◌-◌, ◌%◌, ◌^◌, Bool, true, false, not, ◌&&◌, ◌||◌, Option, none, some, Table,
  put, add32, sub32, mul32, slt, ltb, leb, ◌==◌, if◌then◌else◌, for_range, minus_one,
}

abbrev pub Bytes : Type 0
Bytes = Table ℕ

-- The rounds of `for (i = 0; i < n; i++)`
abbrev pub times : ℕ → ℕ
times n = if slt 0 n then n else 0

-- A `char` as an `int`
abbrev pub char_value : ℕ → ℕ
char_value c = if ltb c 128 then c else c + (2 ^ 32 - 256)

-- `a < b` for `char`
abbrev pub char_lt : ℕ → ℕ → Bool
char_lt a b = ltb ((a + 128) % 256) ((b + 128) % 256)

unfoldable pub memcpy : Bytes → ℕ → ℕ → ℕ → Bytes
memcpy m s ct n = for_range (times n) 0 (λ i m'. put m' (s + i) (m' (ct + i))) m

unfoldable pub memset : Bytes → ℕ → ℕ → ℕ → Bytes
memset m s c n = for_range (times n) 0 (λ i m'. put m' (s + i) (c % 256)) m

unfoldable pub bzero : Bytes → ℕ → ℕ → Bytes
bzero m p len = for_range (times len) 0 (λ i m'. put m' (p + i) 0) m

unfoldable pub memcmp_loop : ℕ → Bytes → ℕ → ℕ → ℕ
memcmp_loop zero m c1 c2 = 0
memcmp_loop (suc n) m c1 c2 = elim (m c1 == m c2) [
  | true ↦ memcmp_loop n m (c1 + 1) (c2 + 1)
  | false ↦ sub32 (m c1) (m c2)
]

unfoldable pub memcmp : Bytes → ℕ → ℕ → ℕ → ℕ
memcmp m s1 s2 n = memcmp_loop (times n) m s1 s2

unfoldable pub strlen_loop : ℕ → Bytes → ℕ → ℕ → Option ℕ
strlen_loop zero m str len = none
strlen_loop (suc fuel) m str len = elim (m str == 0) [
  | true ↦ some len
  | false ↦ strlen_loop fuel m (str + 1) (len + 1)
]

unfoldable pub strlen : ℕ → Bytes → ℕ → Option ℕ
strlen fuel m str = strlen_loop fuel m str 0

-- The comparison `n < len` is unsigned.
unfoldable pub strnlen : ℕ → Bytes → ℕ → ℕ
strnlen zero m s = 0
strnlen (suc len) m s = let rest = strnlen len m (s + 1) + 1 in if m s == 0 then 0 else rest

unfoldable pub strcpy : ℕ → Bytes → ℕ → ℕ → Option Bytes
strcpy zero m tar src = none
strcpy (suc fuel) m tar src =
    let m' = put m tar (m src) in
    elim (m src == 0) [ true ↦ some m' | false ↦ strcpy fuel m' (tar + 1) (src + 1) ]

-- `while (++i < n) *s1++ = '\0';`
unfoldable pub pad : ℕ → Bytes → ℕ → Bytes
pad n m s1 = for_range n 0 (λ i m'. put m' (s1 + i) 0) m

unfoldable pub strncpy_loop : ℕ → Bytes → ℕ → ℕ → Bytes
strncpy_loop zero m s1 s2 = m
strncpy_loop (suc n) m s1 s2 =
    let m' = put m s1 (m s2) in
    elim (m s2 == 0) [ true ↦ pad n m' (s1 + 1) | false ↦ strncpy_loop n m' (s1 + 1) (s2 + 1) ]

unfoldable pub strncpy : Bytes → ℕ → ℕ → ℕ → Bytes
strncpy m s1 s2 n = strncpy_loop (times n) m s1 s2

-- The loop that appends; `n` is what may still be copied. The character that is too much is
-- overwritten.
unfoldable pub append_loop : ℕ → ℕ → Bytes → ℕ → ℕ → Option Bytes
append_loop zero n m s1 s2 = none
append_loop (suc fuel) n m s1 s2 =
    let m' = put m s1 (m s2) in
    elim (m s2 == 0) [
      | true ↦ some m'
      | false ↦ elim n [
        | zero ↦ some (put m' s1 0)
        | suc n' ↦ append_loop fuel n' m' (s1 + 1) (s2 + 1)
      ]
    ]

unfoldable pub find_nul : ℕ → Bytes → ℕ → Option ℕ
find_nul zero m s = none
find_nul (suc fuel) m s = elim (m s == 0) [ true ↦ some s | false ↦ find_nul fuel m (s + 1) ]

unfoldable pub strncat : ℕ → Bytes → ℕ → ℕ → ℕ → Option Bytes
strncat fuel m s1 s2 n = elim (find_nul fuel m s1) [
  | none ↦ none
  | some end ↦ append_loop fuel (times n) m end s2
]

unfoldable pub strcmp : ℕ → Bytes → ℕ → ℕ → Option ℕ
strcmp zero m str1 str2 = none
strcmp (suc fuel) m str1 str2 =
    let rest = strcmp fuel m (str1 + 1) (str2 + 1) in
    if not (m str1 == m str2)
    then some (if char_lt (m str1) (m str2) then minus_one else 1)
    else (if m str1 == 0 then some 0 else rest)

unfoldable pub strncmp_loop : ℕ → Bytes → ℕ → ℕ → ℕ
strncmp_loop zero m s1 s2 = 0
strncmp_loop (suc n) m s1 s2 =
    let rest = strncmp_loop n m (s1 + 1) (s2 + 1) in
    if not (m s1 == m s2)
    then sub32 (char_value (m s1)) (char_value (m s2))
    else (if m s1 == 0 then 0 else rest)

unfoldable pub strncmp : Bytes → ℕ → ℕ → ℕ → ℕ
strncmp m s1 s2 n = strncmp_loop (times n) m s1 s2

unfoldable pub strchr : ℕ → Bytes → ℕ → ℕ → Option ℕ
strchr zero m s c = none
strchr (suc fuel) m s c =
    let rest = strchr fuel m (s + 1) c in
    if m s == c % 256 then some s else (if m s == 0 then some 0 else rest)

unfoldable pub strrchr_loop : ℕ → Bytes → ℕ → ℕ → ℕ → Option ℕ
strrchr_loop zero m s c r = none
strrchr_loop (suc fuel) m s c r = elim (m s == 0) [
  | true ↦ some (if c % 256 == m s then s else r)
  | false ↦ strrchr_loop fuel m (s + 1) c (if m s == c % 256 then s else r)
]

unfoldable pub strrchr : ℕ → Bytes → ℕ → ℕ → Option ℕ
strrchr fuel m s c = strrchr_loop fuel m s c 0

-- The blanks and the sign in front of a number: whether it is negative, and the place behind.
unfoldable pub skip_sign : ℕ → Bytes → ℕ → Option (Bool × ℕ)
skip_sign zero m p = none
skip_sign (suc fuel) m p =
    let rest = skip_sign fuel m (p + 1) in
    if m p == b' ' || m p == b'\t'
    then rest
    else some (m p == b'-', if m p == b'-' || m p == b'+' then p + 1 else p)

unfoldable pub digits : ℕ → Bytes → ℕ → ℕ → Option ℕ
digits zero m p n = none
digits (suc fuel) m p n =
    let rest = digits fuel m (p + 1) (sub32 (add32 (mul32 n 10) (m p)) b'0') in
    if leb b'0' (m p) && leb (m p) b'9' then rest else some n

unfoldable pub atoi : ℕ → Bytes → ℕ → Option ℕ
atoi fuel m p = elim (skip_sign fuel m p) [
  | none ↦ none
  | some (negative, p') ↦ elim (digits fuel m p' 0) [
    | none ↦ none
    | some n ↦ some (if negative then sub32 0 n else n)
  ]
]

unfoldable pub abs : ℕ → ℕ
abs arg = if slt arg 0 then sub32 0 arg else arg

unfoldable pub labs : ℕ → ℕ
labs arg = if slt arg 0 then sub32 0 arg else arg

-- `RAND_MAX + 1` is 2147483647; the product is unsigned. The result is the new seed too.
unfoldable pub rand_r : ℕ → ℕ
rand_r seed = mul32 16807 seed % 2147483647

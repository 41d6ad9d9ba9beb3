-- ===== src/Examples/Strings.antt =====
-- Memory with the strings `ab` at 100 and `abc` at 200.
use os_demand_paging.Strings.{
  Bytes, strlen, strcmp, strncpy, strncat, append_loop, find_nul, atoi, skip_sign, digits, strncmp,
  strncmp_loop,
}
use os_demand_paging.Strings.Text.{strcmp_lem}
use os_demand_paging.Strings.Copy.{strncpy_lem, copied}
use os_demand_paging.Base.{
  ℕ, ◌≡◌, ◌↔◌, Option, some, none, [], ◌∷◌, List, put, arith, refl, minus_one, inr, length,
}

abbrev two_strings : Bytes
two_strings = put (put (put (put (put (λ a. 0) 100 b'a') 101 b'b') 200 b'a') 201 b'b') 202 b'c'

strcmp_lem_example :
    (strlen 9 two_strings 100 ≡ some 2)
    × (strcmp 9 two_strings 100 200 ≡ some minus_one)
    × ((◌≡◌ {A = ℕ} minus_one 0) ↔ (◌≡◌ {A = List ℕ} (b'a' ∷ b'b' ∷ []) (b'a' ∷ b'b' ∷ b'c' ∷ [])))
strcmp_lem_example =
    strcmp_lem 9 two_strings 100 200 (b'a' ∷ b'b' ∷ []) (b'a' ∷ b'b' ∷ b'c' ∷ []) (omega arith)
      (refl, omega arith, (refl, omega arith, refl))
      (refl, omega arith, (refl, omega arith, (refl, omega arith, refl)))

abbrev letters : List ℕ
letters = b'a' ∷ b'b' ∷ []

strncpy_lem_example :
    strncpy two_strings 300 100 4 301 ≡ copied two_strings 300 100 4 (length letters) 301
strncpy_lem_example =
    strncpy_lem 4 two_strings 300 100 letters (refl, omega arith, (refl, omega arith, refl))
      (omega arith) (inr (omega arith)) 301

-- `strncat` of two characters of `abc`
abbrev byte_at : Option Bytes → ℕ → ℕ
byte_at (some m) a = m a
byte_at none a = 999

strncat_cuts : byte_at (strncat 9 two_strings 100 200 2) 104 ≡ 0
unfolding strncat find_nul append_loop
strncat_cuts = refl

strncmp_prefix : strncmp two_strings 100 200 2 ≡ 0
unfolding strncmp strncmp_loop
strncmp_prefix = refl

-- ` -12`
abbrev number : Bytes
number = put (put (put (put (λ a. 0) 5 b' ') 6 b'-') 7 b'1') 8 b'2'

atoi_negative : atoi 9 number 5 ≡ some 4294967284
unfolding atoi skip_sign digits
atoi_negative = refl

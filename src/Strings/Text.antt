-- ===== src/Strings/Text.antt =====
-- Strings in memory, and what `strlen` and `strcmp` say of them.
use os_demand_paging.Strings.{Bytes, strlen, strlen_loop, strcmp, char_lt}
use os_demand_paging.Base.{
  ℕ, zero, suc, ◌+◌, ◌<◌, ◌≤◌, ◌≡◌, ◌≢◌, ◌↔◌, List, [], ◌∷◌, length, some, ◌==◌, if◌then◌else◌,
  minus_one, arith, refl, ap, Bool-cases, inl, inr, ◌∙◌,
}

-- The characters of the list lie from `a` on, with a NUL behind them and none among them.
abbrev pub IsString : Bytes → ℕ → List ℕ → Type 0
IsString m a [] = m a ≡ 0
IsString m a (x ∷ xs) = (m a ≡ x) × (x ≢ 0) × IsString m (a + 1) xs

pub IsString-keep :
    (m m' : Bytes) (a : ℕ) (xs : List ℕ)
    → ((c : ℕ) → a ≤ c → c ≤ a + length xs → m' c ≡ m c)
    → IsString m a xs
    → IsString m' a xs
IsString-keep m m' a [] same h = same a (omega arith) (omega arith) ∙ h
IsString-keep m m' a (x ∷ xs) same h = (
  same a (omega arith) (omega arith) ∙ h.0,
  h.1,
  IsString-keep m m' (a + 1) xs (λ c l u. same c (omega arith) (omega arith)) h.2,
)

-- The lexicographic order of two texts, by the signed values of their characters; the end of a text
-- counts as 0.
abbrev pub differ : ℕ → ℕ → ℕ
differ x y = if char_lt x y then minus_one else 1

abbrev pub order : List ℕ → List ℕ → ℕ
order [] [] = 0
order [] (y ∷ ys) = differ 0 y
order (x ∷ xs) [] = differ x 0
order (x ∷ xs) (y ∷ ys) = if x == y then order xs ys else differ x y

order-same : (xs : List ℕ) → order xs xs ≡ 0
order-same [] = refl
order-same (x ∷ xs) = ground (arith, order-same xs)

order-zero : (xs ys : List ℕ) → order xs ys ≡ 0 → xs ≡ ys
order-zero [] [] e = refl
order-zero [] (y ∷ ys) e = absurd (ground (arith, e))
order-zero (x ∷ xs) [] e = absurd (ground (arith, e))
order-zero (x ∷ xs) (y ∷ ys) e = elim (Bool-cases (x == y)) [
  | inl same ↦ let first : x ≡ y = ground arith in let rest = order-zero xs ys (rw same at e) in cc
  | inr other ↦ absurd (ground (arith, e))
]

strcmp-order :
    (fuel : ℕ) (m : Bytes) (a b : ℕ) (xs ys : List ℕ)
    → length xs < fuel
    → IsString m a xs
    → IsString m b ys
    → strcmp fuel m a b ≡ some (order xs ys)
unfolding strcmp
strcmp-order zero m a b xs ys l h g = absurd (omega arith)
strcmp-order (suc fuel) m a b [] [] l h g = ground (arith, h, g)
strcmp-order (suc fuel) m a b [] (y ∷ ys) l h g = ground (arith, h, g.0, g.1)
strcmp-order (suc fuel) m a b (x ∷ xs) [] l h g = ground (arith, h.0, h.1, g)
strcmp-order (suc fuel) m a b (x ∷ xs) (y ∷ ys) l h g = elim (Bool-cases (x == y)) [
  | inl same ↦
      ground (arith, h.0, h.1, g.0, strcmp-order fuel m (a + 1) (b + 1) xs ys (omega arith) h.2 g.2)
  | inr other ↦ ground (arith, h.0, g.0)
]

strlen_loop-length :
    (fuel : ℕ) (m : Bytes) (a n : ℕ) (xs : List ℕ)
    → length xs < fuel
    → IsString m a xs
    → strlen_loop fuel m a n ≡ some (n + length xs)
unfolding strlen_loop
strlen_loop-length zero m a n xs l h = absurd (omega arith)
strlen_loop-length (suc fuel) m a n [] l h = ground (arith, h)
strlen_loop-length (suc fuel) m a n (x ∷ xs) l h =
    ground (arith, h.0, h.1, strlen_loop-length fuel m (a + 1) (n + 1) xs (omega arith) h.2)

-- On two strings in memory, given a round more than the first has characters, `strlen` and `strcmp` return: the
-- length of the first, and their lexicographic order by the signed values of the characters,
-- which is 0 exactly if the strings are equal.
pub strcmp_lem :
    (fuel : ℕ) (m : Bytes) (a b : ℕ) (xs ys : List ℕ)
    → length xs < fuel
    → IsString m a xs
    → IsString m b ys
    → (strlen fuel m a ≡ some (length xs))
      × (strcmp fuel m a b ≡ some (order xs ys))
      × ((order xs ys ≡ 0) ↔ (xs ≡ ys))
unfolding strlen
strcmp_lem fuel m a b xs ys l h g = (
  strlen_loop-length fuel m a 0 xs l h ∙ ap some (omega arith),
  strcmp-order fuel m a b xs ys l h g,
  (order-zero xs ys, λ e. rw (← e) (order-same xs)),
)

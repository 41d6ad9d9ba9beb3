-- ===== src/Base/Loops.antt =====
-- Counted loops: the rounds left, the index, and the state that the body carries along.
use Prim.Native.Nat.{ℕ, zero, suc, ◌+◌, ◌≤◌, ◌<◌}
use mathlib.Core.Path.{◌≡◌, refl}
use mathlib.Core.Logic.{◌⊎◌, inl, inr, ◌≢◌}
use mathlib.Core.Bool.{Bool, true, false, ◌&&◌}
use native.Mathlib.Omega.{arith}
use native.Mathlib.Decide.{ℕ_discrete}
use os_demand_paging.Base.Tests.{ltb, leb, ◌==◌, if◌then◌else◌, Bool-cases}
use os_demand_paging.Base.Tables.{Table, put}

-- `for (j = i; j < i + n; j++) x = step(j, x);`
unfoldable pub for_range {ℓ} : {A : Type ℓ} (rounds i : ℕ) (step : ℕ → A → A) → A → A
for_range zero i step x = x
for_range (suc rounds) i step x = for_range rounds (i + 1) step (step i x)

-- What holds of the index and the variable before a round, and is carried over every round between
-- `lo` and `hi`, holds after the loop.
pub for_range_inv {ℓ κ} :
    {A : Type ℓ} (Inv : ℕ → A → Type κ) (step : ℕ → A → A) (lo hi : ℕ)
    → ((i : ℕ) (x : A) → lo ≤ i → i < hi → Inv i x → Inv (i + 1) (step i x))
    → (rounds i end : ℕ) (x : A) → lo ≤ i
    → i + rounds ≡ end
    → end ≤ hi
    → Inv i x
    → Inv end (for_range rounds i step x)
unfolding for_range
for_range_inv Inv step lo hi next zero i end x l e b h =
    let stays : i ≡ end = omega arith in rw (← stays) h
for_range_inv Inv step lo hi next (suc rounds) i end x l e b h =
    let after = next i x l (omega arith) h in
    for_range_inv Inv step lo hi next rounds (i + 1) end (step i x) (omega arith) (omega arith) b
      after

-- `for (j = i; j < i + n; j++) if (p(j)) break;`: the index at which the loop ends.
unfoldable pub first : (ℕ → Bool) → ℕ → ℕ → ℕ
first p zero i = i
first p (suc n) i = elim (p i) [ true ↦ i | false ↦ first p n (i + 1) ]

pub record IsFirst (p : ℕ → Bool) (i j r : ℕ) : Type 0 where
  pub lower : i ≤ r
  pub upper : r ≤ j
  pub stops : r < j → p r ≡ true
  pub skips : (k : ℕ) → i ≤ k → k < r → p k ≡ false

pub first_lem : (p : ℕ → Bool) (n i j : ℕ) → i + n ≡ j → IsFirst p i j (first p n i)
unfolding first
first_lem p zero i j e = record {
  lower = omega arith;
  upper = omega arith;
  stops = λ h. absurd (omega arith);
  skips = λ k a b. absurd (omega arith);
}
first_lem p (suc n) i j e = go (Bool-cases (p i)) (first_lem p n (i + 1) j (omega arith))
  where
    go :
        (p i ≡ true) ⊎ (p i ≡ false)
        → IsFirst p (i + 1) j (first p n (i + 1))
        → IsFirst p i j (first p (suc n) i)
    go (inl hit) rest =
        rw (hit, first)
          (record {
            lower = omega arith;
            upper = omega arith;
            stops = λ h. hit;
            skips = λ k a b. absurd (omega arith);
          })
    go (inr miss) rest =
        rw (miss, first)
          (record {
            lower = omega (arith, rest.lower);
            upper = rest.upper;
            stops = rest.stops;
            skips = λ k a b. elim (Bool-cases (k == i)) [
              | inl e ↦ ground (arith, miss)
              | inr e ↦ rest.skips k (ground arith) b
            ];
          })

-- `for (j = i; j < i + n; j++) if (p(j)) cnt++;`
unfoldable pub count_if : (ℕ → Bool) → ℕ → ℕ → ℕ
count_if p zero i = 0
count_if p (suc n) i = (if p i then 1 else 0) + count_if p n (i + 1)

-- `for (j = i; j < i + n; j++) t[j] = f(j, t[j]);`
unfoldable pub sweep {ℓ} : {A : Type ℓ} → ℕ → ℕ → (ℕ → A → A) → Table A → Table A
sweep zero i f t = t
sweep (suc n) i f t = sweep n (i + 1) f (put t i (f i (t i)))

-- The loop changes the entries of its range, each by its own value, and no other.
pub sweep_lem :
    {A : Type 0} (n i j : ℕ) (f : ℕ → A → A) (t : Table A) (k : ℕ)
    → i + n ≡ j
    → sweep n i f t k ≡ (if leb i k && ltb k j then f k (t k) else t k)
unfolding sweep
sweep_lem zero i j f t k e = ground arith
sweep_lem (suc n) i j f t k e =
    ground (arith, sweep_lem n (i + 1) j f (put t i (f i (t i))) k (omega arith))

pub count_if_congr :
    (p q : ℕ → Bool) (n i j : ℕ)
    → i + n ≡ j
    → ((k : ℕ) → i ≤ k → k < j → p k ≡ q k)
    → count_if p n i ≡ count_if q n i
unfolding count_if
count_if_congr p q zero i j e h = refl
count_if_congr p q (suc n) i j e h = rw (
  h i (omega arith) (omega arith),
  count_if_congr p q n (i + 1) j (omega arith) (λ k g l. h k (omega arith) l),
)

pub count_if_none :
    (p : ℕ → Bool) (n i j : ℕ) → i + n ≡ j → ((k : ℕ) → k < j → p k ≡ false) → count_if p n i ≡ 0
unfolding count_if
count_if_none p zero i j e h = refl
count_if_none p (suc n) i j e h =
    rw (h i (omega arith)) (omega (arith, count_if_none p n (i + 1) j (omega arith) h))

pub count_if_le : (p : ℕ → Bool) (n i : ℕ) → count_if p n i ≤ n
unfolding count_if
count_if_le p zero i = omega arith
count_if_le p (suc n) i = ground (arith, count_if_le p n (i + 1))

-- One more index is counted.
pub count_if_suc :
    (p q : ℕ → Bool) (x n i j : ℕ)
    → i + n ≡ j
    → i ≤ x
    → x < j
    → p x ≡ false
    → q x ≡ true
    → ((k : ℕ) → k ≢ x → p k ≡ q k)
    → count_if q n i ≡ 1 + count_if p n i
unfolding count_if
count_if_suc p q x zero i j e lo hi hp hq h = absurd (omega arith)
count_if_suc p q x (suc n) i j e lo hi hp hq h = elim (ℕ_discrete i x) [
  | yes same ↦
      rw (same, hp, hq)
        (omega (arith, count_if_congr p q n (x + 1) j (omega arith) (λ k g l. h k (omega arith))))
  | no other ↦
      rw (h i other)
        (omega (arith, count_if_suc p q x n (i + 1) j (omega arith) (omega arith) hi hp hq h))
]

pub count_if_snoc :
    (p : ℕ → Bool) (n i : ℕ) → count_if p (n + 1) i ≡ count_if p n i + (if p (i + n) then 1 else 0)
unfolding count_if
count_if_snoc p zero i = ground arith
count_if_snoc p (suc n) i = ground (arith, count_if_snoc p n (i + 1))

pub count_if_zero : (p : ℕ → Bool) (i : ℕ) → count_if p 0 i ≡ 0
unfolding count_if
count_if_zero p i = refl

pub for_range-suc {ℓ} :
    {A : Type ℓ} (n i : ℕ) (step : ℕ → A → A) (x : A)
    → for_range (suc n) i step x ≡ for_range n (i + 1) step (step i x)
unfolding for_range
for_range-suc n i step x = refl

-- A count of 0.
pub count_if_empty :
    (p : ℕ → Bool) (n i k : ℕ) → count_if p n i ≡ 0 → i ≤ k → k < i + n → p k ≡ false
unfolding count_if
count_if_empty p zero i k e lo hi = absurd (omega arith)
count_if_empty p (suc n) i k e lo hi = elim (ℕ_discrete i k) [
  | yes same ↦ rw (← same) (ground (arith, e))
  | no other ↦ count_if_empty p n (i + 1) k (ground (arith, e)) (omega arith) (omega arith)
]

pub count_if_all : (p : ℕ → Bool) (n i : ℕ) → ((k : ℕ) → p k ≡ true) → count_if p n i ≡ n
unfolding count_if
count_if_all p zero i h = refl
count_if_all p (suc n) i h = rw (h i) (omega (arith, count_if_all p n (i + 1) h))

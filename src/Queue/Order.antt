-- ===== src/Queue/Order.antt =====
-- `insert` keeps a queue in descending order of its keys, and `newqueue` makes an empty queue.
use os_demand_paging.Process.{nproc}
use os_demand_paging.Queue.Refine.{AllProcs, IsQueue}
use os_demand_paging.Queue.Chain.{Chain, Fresh, Distinct, head_of, Chain-first}
use os_demand_paging.Queue.{Queuetab, insert_walk, nproc}
use os_demand_paging.Base.{
  length, refl, zero, suc, [], ◌∷◌, List, ℕ, Bool, sle, ◌+◌, ◌≡◌, false, true, ◌++◌, ◌≤◌, arith,
  count_if, ◌<◌, ◌==◌, count_if_le, count_if_none, ◌||◌, Bool-cases, count_if_suc, inl, ◌∙◌, ap,
  inr, ◌≢◌,
}

abbrev has : List ℕ → ℕ → Bool
has [] i = false
has (x ∷ xs) i = i == x || has xs i

has-Fresh : (x : ℕ) (xs : List ℕ) → Fresh x xs → has xs x ≡ false
has-Fresh x [] f = refl
has-Fresh x (y ∷ xs) f = ground (arith, f.0, has-Fresh x xs f.1)

count-has : (xs : List ℕ) → AllProcs xs → Distinct xs → count_if (has xs) nproc 0 ≡ length xs
count-has [] a d = count_if_none (has []) nproc 0 nproc (omega arith) (λ k l. refl)
count-has (x ∷ xs) a d =
    count_if_suc (has xs) (has (x ∷ xs)) x nproc 0 nproc (omega arith) (omega arith) a.0
      (has-Fresh x xs d.0) (ground arith) (λ k n. ground arith)
    ∙ ap (λ n. 1 + n) (count-has xs a.1 d.1)

-- A queue holds at most `nproc` processes.
pub length-IsQueue : (t : Queuetab) (q : ℕ) (ps : List ℕ) → IsQueue t q ps → length ps ≤ nproc
length-IsQueue t q ps h =
    omega (arith, count-has ps h.procs h.distinct, count_if_le (has ps) nproc 0)

-- Every process of the list has a key of `key` or more; the first has a smaller one.
abbrev pub AtLeast : Queuetab → ℕ → List ℕ → Type 0
AtLeast t key [] = Unit {0}
AtLeast t key (x ∷ xs) = (sle key (t x).qkey ≡ true) × AtLeast t key xs

abbrev pub FirstBelow : Queuetab → ℕ → List ℕ → Type 0
FirstBelow t key [] = Unit {0}
FirstBelow t key (y ∷ ys) = sle key (t y).qkey ≡ false

-- Where the walk stops.
pub record Place (t : Queuetab) (key : ℕ) (ps xs ys : List ℕ) : Type 0 where
  pub parts : ps ≡ xs ++ ys
  pub before : AtLeast t key xs
  pub behind : FirstBelow t key ys

pub insert_walk-Place :
    (t : Queuetab) (key b fuel a : ℕ) (ps : List ℕ)
    → Chain t a ps b
    → sle key (t b).qkey ≡ false
    → length ps < fuel
    → (xs : List ℕ) × (ys : List ℕ) × Place t key ps xs ys
      × (insert_walk t key fuel (head_of ps b) ≡ head_of ys b)
unfolding insert_walk
insert_walk-Place t key b zero a ps c stop l = absurd (omega arith)
insert_walk-Place t key b (suc fuel) a [] c stop l =
    ([], [], record { parts = refl; before = tt; behind = tt }, rw (stop, insert_walk) refl)
insert_walk-Place t key b (suc fuel) a (x ∷ ps) c stop l = elim (Bool-cases (sle key (t x).qkey)) [
  | inl more ↦
      let (xs, ys, p, e) = insert_walk-Place t key b fuel x ps c.2 stop (omega arith) in
      (
        x ∷ xs,
        ys,
        record { parts = ap (λ zs. x ∷ zs) p.parts; before = (more, p.before); behind = p.behind },
        rw (more, Chain-first t x b ps c.2, insert_walk) e,
      )
  | inr less ↦
      ([], x ∷ ps, record { parts = refl; before = tt; behind = less }, rw (less, insert_walk) refl)
]

-- The keys of the list go down, or stay.
abbrev pub Sorted : Queuetab → List ℕ → Type 0
Sorted t [] = Unit {0}
Sorted t (x ∷ []) = Unit {0}
Sorted t (x ∷ y ∷ ys) = (sle (t y).qkey (t x).qkey ≡ true) × Sorted t (y ∷ ys)

-- The queue after an insertion.
pub record Inserted (t : Queuetab) (q pid key : ℕ) (ps : List ℕ) (t' : Queuetab) : Type 0 where
  pub xs : List ℕ
  pub ys : List ℕ
  pub place : Place t key ps xs ys
  pub queue : IsQueue t' q (xs ++ pid ∷ ys)
  pub key_set : (t' pid).qkey ≡ key
  pub keys : (c : ℕ) → c ≢ pid → (t' c).qkey ≡ (t c).qkey
  pub sorted : Sorted t' (xs ++ pid ∷ ys)

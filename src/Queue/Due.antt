-- ===== src/Queue/Due.antt =====
-- `insertd` against the insertion by time.
use mathlib.Core.Path.{subst, sym}
use os_demand_paging.Queue.Delta.{Sleeper, sleepers, insert_sleeper, total, Later, Delays, Spot}
use os_demand_paging.Queue.Chain.{Fresh, Distinct, head_of, Distinct-split}
use os_demand_paging.Queue.{Queuetab}
use os_demand_paging.Base.{
  refl, true, false, [], ◌∷◌, ◌-◌, ◌++◌, ℕ, ◌≡◌, ◌+◌, leb, arith, ◌≤◌, List, ap, sym, ◌∙◌, ◌≢◌,
}

abbrev pub sleeper : ℕ → ℕ → Sleeper
sleeper pid due = record { pid = pid; due = due }

-- The new process among those that were there.
Later-less :
    (t : Queuetab) (key d acc : ℕ) (ys : List ℕ)
    → d ≤ key
    → Later t key (d + acc) ys
    → Later t (key - d) acc ys
Later-less t key d acc [] h l = tt
Later-less t key d acc (y ∷ ys) h l = omega arith

insert-sleepers :
    (t : Queuetab) (pid key acc : ℕ) (xs ys : List ℕ)
    → total t xs ≤ key
    → Later t key (total t xs) ys
    → insert_sleeper (sleeper pid (acc + key)) (sleepers t acc (xs ++ ys))
      ≡ sleepers t acc xs ++ sleeper pid (acc + key) ∷ sleepers t (acc + total t xs) ys
unfolding insert_sleeper sleepers total
insert-sleepers t pid key acc [] [] le l = refl
insert-sleepers t pid key acc [] (y ∷ ys) le l =
    let late : leb (acc + (t y).qkey) (acc + key) ≡ false = ground arith in
    let same : acc + 0 ≡ acc = omega arith in rw (late, same) refl
insert-sleepers t pid key acc (x ∷ xs) ys le l =
    let d = (t x).qkey in
    let early : leb (acc + d) (acc + key) ≡ true = ground arith in
    let due : acc + key ≡ acc + d + (key - d) = omega arith in
    let sum : acc + (d + total t xs) ≡ acc + d + total t xs = omega arith in
    let rest =
      insert-sleepers t pid (key - d) (acc + d) xs ys (omega arith)
        (Later-less t key d (total t xs) ys (omega arith) l) in
    rw (early, sum)
      (ap (λ zs. sleeper x (acc + d) ∷ zs)
        (subst
          (λ r.
            insert_sleeper (sleeper pid r) (sleepers t (acc + d) (xs ++ ys))
            ≡ sleepers t (acc + d) xs ++ sleeper pid r ∷ sleepers t (acc + d + total t xs) ys)
          (sym due) rest))

-- A list whose keys are the same in both tables.
pub sleepers-keep :
    (t t' : Queuetab) (acc : ℕ) (xs : List ℕ)
    → ((x : ℕ) → ¬ Fresh x xs → (t' x).qkey ≡ (t x).qkey)
    → sleepers t' acc xs ≡ sleepers t acc xs
unfolding sleepers
sleepers-keep t t' acc [] same = refl
sleepers-keep t t' acc (x ∷ xs) same = rw (same x (λ f. f.0 refl)) (
    ap (λ zs. sleeper x (acc + (t x).qkey) ∷ zs)
      (sleepers-keep t t' (acc + (t x).qkey) xs (λ z h. same z (λ f. h f.1))))

pub sleepers-append :
    (t : Queuetab) (acc : ℕ) (xs ys : List ℕ)
    → sleepers t acc (xs ++ ys) ≡ sleepers t acc xs ++ sleepers t (acc + total t xs) ys
unfolding sleepers total
sleepers-append t acc [] ys = ap (λ a. sleepers t a ys) (omega arith)
sleepers-append t acc (x ∷ xs) ys =
    let sum : acc + ((t x).qkey + total t xs) ≡ acc + (t x).qkey + total t xs = omega arith in
    rw sum
      (ap (λ zs. sleeper x (acc + (t x).qkey) ∷ zs) (sleepers-append t (acc + (t x).qkey) xs ys))

pub total-keep :
    (t t' : Queuetab) (xs : List ℕ)
    → ((x : ℕ) → ¬ Fresh x xs → (t' x).qkey ≡ (t x).qkey)
    → total t' xs ≡ total t xs
unfolding total
total-keep t t' [] same = refl
total-keep t t' (x ∷ xs) same =
    omega (arith, same x (λ f. f.0 refl), total-keep t t' xs (λ z h. same z (λ f. h f.1)))

pub Delays-keep :
    (t t' : Queuetab) (xs : List ℕ)
    → ((x : ℕ) → ¬ Fresh x xs → (t' x).qkey ≡ (t x).qkey)
    → Delays t xs
    → Delays t' xs
Delays-keep t t' [] same d = tt
Delays-keep t t' (x ∷ xs) same d = (
  omega (arith, same x (λ f. f.0 refl), d.0),
  Delays-keep t t' xs (λ z h. same z (λ f. h f.1)) d.1,
)

pub Delays-split : (t : Queuetab) (xs ys : List ℕ) → Delays t (xs ++ ys) → Delays t xs × Delays t ys
Delays-split t [] ys d = (tt, d)
Delays-split t (x ∷ xs) ys d = let r = Delays-split t xs ys d.1 in ((d.0, r.0), r.1)

pub Delays-join : (t : Queuetab) (xs ys : List ℕ) → Delays t xs → Delays t ys → Delays t (xs ++ ys)
Delays-join t [] ys d e = e
Delays-join t (x ∷ xs) ys d e = (d.0, Delays-join t xs ys d.1 e)

pub Fresh-append : (c : ℕ) (xs ys : List ℕ) → Fresh c (xs ++ ys) → Fresh c xs × Fresh c ys
Fresh-append c [] ys f = (tt, f)
Fresh-append c (x ∷ xs) ys f = let r = Fresh-append c xs ys f.1 in ((f.0, r.0), r.1)

pub Distinct-append : (xs ys : List ℕ) → Distinct (xs ++ ys) → Distinct xs × Distinct ys
Distinct-append [] ys d = (tt, d)
Distinct-append (x ∷ xs) ys d =
    let r = Distinct-append xs ys d.1 in (((Fresh-append x xs ys d.0).0, r.0), r.1)

-- No process of the first part begins the second.
pub not_head :
    (x b : ℕ) (xs ys : List ℕ) → ¬ Fresh x xs → Fresh b xs → Distinct (xs ++ ys) → x ≢ head_of ys b
not_head x b xs [] m f d e = m (subst (λ z. Fresh z xs) (sym e) f)
not_head x b xs (y ∷ ys) m f d e =
    m (subst (λ z. Fresh z xs) (sym e) (Fresh-append y xs ys (Distinct-split y xs ys d).0).0)

-- The keys behind the new process, whose own key is `r`: the first is shortened by it.
abbrev pub Shortened : Queuetab → Queuetab → ℕ → List ℕ → Type 0
Shortened t t' r [] = Unit {0}
Shortened t t' r (y ∷ ys) =
    ((t' y).qkey + r ≡ (t y).qkey) × ((x : ℕ) → ¬ Fresh x ys → (t' x).qkey ≡ (t x).qkey)

sleepers-Shortened :
    (t t' : Queuetab) (acc r : ℕ) (ys : List ℕ)
    → Shortened t t' r ys
    → sleepers t' (acc + r) ys ≡ sleepers t acc ys
unfolding sleepers
sleepers-Shortened t t' acc r [] s = refl
sleepers-Shortened t t' acc r (y ∷ ys) s =
    let due : acc + r + (t' y).qkey ≡ acc + (t y).qkey = omega (arith, s.0) in
    rw due
      (ap (λ zs. sleeper y (acc + (t y).qkey) ∷ zs) (sleepers-keep t t' (acc + (t y).qkey) ys s.1))

pub Delays-Shortened :
    (t t' : Queuetab) (r : ℕ) (ys : List ℕ) → Shortened t t' r ys → Delays t ys → Delays t' ys
Delays-Shortened t t' r [] s d = tt
Delays-Shortened t t' r (y ∷ ys) s d = (omega (arith, s.0, d.0), Delays-keep t t' ys s.1 d.1)

-- A table whose keys are those after the insertion.
pub sleepers-Inserted :
    (t t' : Queuetab) (pid key : ℕ) (ps xs ys : List ℕ)
    → Spot t key ps xs ys
    → ((x : ℕ) → ¬ Fresh x xs → (t' x).qkey ≡ (t x).qkey)
    → (t' pid).qkey ≡ key - total t xs
    → Shortened t t' (key - total t xs) ys
    → sleepers t' 0 (xs ++ pid ∷ ys) ≡ insert_sleeper (sleeper pid key) (sleepers t 0 ps)
unfolding sleepers
sleepers-Inserted t t' pid key ps xs ys p same mine later =
    let sum : 0 + total t' xs ≡ total t xs = omega (arith, total-keep t t' xs same) in
    let due : total t xs + (t' pid).qkey ≡ key = omega (arith, mine, p.before) in
    let due' : total t xs + (key - total t xs) ≡ key = omega (arith, p.before) in
    let rest : sleepers t' key ys ≡ sleepers t (total t xs) ys =
      ap (λ a. sleepers t' a ys) (sym due')
      ∙ sleepers-Shortened t t' (total t xs) (key - total t xs) ys later in
    let zero_key : 0 + key ≡ key = omega arith in
    let inserted =
      subst
        (λ a.
          insert_sleeper (sleeper pid a) (sleepers t 0 (xs ++ ys))
          ≡ sleepers t 0 xs ++ sleeper pid a ∷ sleepers t (0 + total t xs) ys)
        zero_key (insert-sleepers t pid key 0 xs ys p.before p.behind) in
    let none_before : 0 + total t xs ≡ total t xs = omega arith in
    sleepers-append t' 0 xs (pid ∷ ys)
    ∙ rw (sleepers-keep t t' 0 xs same, sum, due, rest, p.parts, ← none_before) (sym inserted)

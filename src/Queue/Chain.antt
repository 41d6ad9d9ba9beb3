-- ===== src/Queue/Chain.antt =====
-- Doubly linked chains of entries of the queue table.
use os_demand_paging.Queue.{Queuetab}
use os_demand_paging.Base.{[], ◌∷◌, List, ℕ, ◌++◌, ◌≡◌, ◌≢◌, sym_ne, ◌∙◌}

-- `x` is not in the list.
abbrev pub Fresh : ℕ → List ℕ → Type 0
Fresh x [] = Unit {0}
Fresh x (y ∷ ys) = (x ≢ y) × Fresh x ys

abbrev pub Distinct : List ℕ → Type 0
Distinct [] = Unit {0}
Distinct (x ∷ xs) = Fresh x xs × Distinct xs

-- The links lead from `a` through `xs` to `b`, and back.
abbrev pub Chain : Queuetab → ℕ → List ℕ → ℕ → Type 0
Chain t a [] b = ((t a).qnext ≡ b) × ((t b).qprev ≡ a)
Chain t a (x ∷ xs) b = ((t a).qnext ≡ x) × ((t x).qprev ≡ a) × Chain t x xs b

-- The last of `a` and `xs`, and the first of `ys` and `b`.
abbrev pub last_of : ℕ → List ℕ → ℕ
last_of a [] = a
last_of a (x ∷ xs) = last_of x xs

abbrev pub head_of : List ℕ → ℕ → ℕ
head_of [] b = b
head_of (y ∷ ys) b = y

pub Fresh-last_of : (c a : ℕ) (xs ys : List ℕ) → c ≢ a → Fresh c (xs ++ ys) → c ≢ last_of a xs
Fresh-last_of c a [] ys h f = h
Fresh-last_of c a (x ∷ xs) ys h f = Fresh-last_of c x xs ys f.0 f.1

pub Fresh-head_of : (c b : ℕ) (xs ys : List ℕ) → c ≢ b → Fresh c (xs ++ ys) → c ≢ head_of ys b
Fresh-head_of c b [] [] h f = h
Fresh-head_of c b [] (y ∷ ys) h f = f.0
Fresh-head_of c b (x ∷ xs) ys h f = Fresh-head_of c b xs ys h f.1

pub Fresh-split : (c x : ℕ) (xs ys : List ℕ) → Fresh c (xs ++ x ∷ ys) → (c ≢ x) × Fresh c (xs ++ ys)
Fresh-split c x [] ys f = f
Fresh-split c x (z ∷ xs) ys f = let r = Fresh-split c x xs ys f.1 in (r.0, (f.0, r.1))

pub Fresh-join : (c x : ℕ) (xs ys : List ℕ) → c ≢ x → Fresh c (xs ++ ys) → Fresh c (xs ++ x ∷ ys)
Fresh-join c x [] ys h f = (h, f)
Fresh-join c x (z ∷ xs) ys h f = (f.0, Fresh-join c x xs ys h f.1)

pub Distinct-split :
    (x : ℕ) (xs ys : List ℕ) → Distinct (xs ++ x ∷ ys) → Fresh x (xs ++ ys) × Distinct (xs ++ ys)
Distinct-split x [] ys d = d
Distinct-split x (z ∷ xs) ys d =
    let r = Distinct-split x xs ys d.1 in
    let f = Fresh-split z x xs ys d.0 in ((sym_ne f.0, r.0), (f.1, r.1))

pub Distinct-join :
    (x : ℕ) (xs ys : List ℕ) → Fresh x (xs ++ ys) → Distinct (xs ++ ys) → Distinct (xs ++ x ∷ ys)
Distinct-join x [] ys f d = (f, d)
Distinct-join x (z ∷ xs) ys f d =
    (Fresh-join z x xs ys (sym_ne f.0) d.0, Distinct-join x xs ys f.1 d.1)

pub Chain-last :
    (t : Queuetab) (a b : ℕ) (xs : List ℕ) → Chain t a xs b → (t b).qprev ≡ last_of a xs
Chain-last t a b [] c = c.1
Chain-last t a b (x ∷ xs) c = Chain-last t x b xs c.2

-- The neighbours of an element.
pub Chain-at :
    (t : Queuetab) (a b x : ℕ) (xs ys : List ℕ)
    → Chain t a (xs ++ x ∷ ys) b
    → ((t x).qnext ≡ head_of ys b) × ((t x).qprev ≡ last_of a xs)
Chain-at t a b x [] [] c = (c.2.0, c.1)
Chain-at t a b x [] (y ∷ ys) c = (c.2.0, c.1)
Chain-at t a b x (z ∷ xs) ys c = Chain-at t z b x xs ys c.2

-- `t'` has the links of `t`, but for the link forward of `p`, the link back of `n`, and entry `e`.
pub record Relinks (t t' : Queuetab) (p n e : ℕ) : Type 0 where
  pub nexts : (c : ℕ) → c ≢ p → c ≢ e → (t' c).qnext ≡ (t c).qnext
  pub prevs : (c : ℕ) → c ≢ n → c ≢ e → (t' c).qprev ≡ (t c).qprev

-- A chain that has none of these keeps its links.
pub Chain-keep :
    (t t' : Queuetab) (p n e a b : ℕ) (xs : List ℕ)
    → Relinks t t' p n e
    → (p ≢ a) × Fresh p xs
    → (n ≢ b) × Fresh n xs
    → (e ≢ a) × (e ≢ b) × Fresh e xs
    → Chain t a xs b
    → Chain t' a xs b
Chain-keep t t' p n e a b [] r hp hn he c =
    (r.nexts a (sym_ne hp.0) (sym_ne he.0) ∙ c.0, r.prevs b (sym_ne hn.0) (sym_ne he.1) ∙ c.1)
Chain-keep t t' p n e a b (x ∷ xs) r hp hn he c = (
  r.nexts a (sym_ne hp.0) (sym_ne he.0) ∙ c.0,
  r.prevs x (sym_ne hn.1.0) (sym_ne he.2.0) ∙ c.1,
  Chain-keep t t' p n e x b xs r hp.1 (hn.0, hn.1.1) (he.2.0, he.1, he.2.1) c.2,
)

pub Chain-first :
    (t : Queuetab) (a b : ℕ) (ys : List ℕ) → Chain t a ys b → (t a).qnext ≡ head_of ys b
Chain-first t a b [] c = c.0
Chain-first t a b (y ∷ ys) c = c.0

-- The link back of the node behind `xs`.
pub Chain-before :
    (t : Queuetab) (a b : ℕ) (xs ys : List ℕ)
    → Chain t a (xs ++ ys) b
    → (t (head_of ys b)).qprev ≡ last_of a xs
Chain-before t a b [] [] c = c.1
Chain-before t a b [] (y ∷ ys) c = c.1
Chain-before t a b (x ∷ xs) ys c = Chain-before t x b xs ys c.2

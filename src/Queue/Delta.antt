-- ===== src/Queue/Delta.antt =====
-- `insertd` keeps a delta list: each key is the delay behind the process in front. Read as a list of
-- processes with the times at which they are due, it is an insertion by time.
use os_demand_paging.Queue.Chain.{Chain, Fresh, last_of, head_of, Chain-first}
use os_demand_paging.Queue.{Queuetab, insertd_walk, Walk, queuetail}
use os_demand_paging.Base.{
  length, refl, zero, suc, inl, inr, true, false, [], ◌∷◌, if◌then◌else◌, ◌-◌, ◌++◌, ℕ, ◌≡◌, ◌+◌,
  ◌<◌, leb, arith, ◌≤◌, ◌∙◌, List, ap, ◌^◌, ◌!=◌, Bool-cases, sle, sub32,
}

-- A process, and how long it is until it is due.
pub record Sleeper : Type 0 where
  pub pid : ℕ
  pub due : ℕ

unfoldable pub sleepers : Queuetab → ℕ → List ℕ → List Sleeper
sleepers t acc [] = []
sleepers t acc (x ∷ xs) =
    let due = acc + (t x).qkey in record { pid = x; due = due } ∷ sleepers t due xs

-- Insertion behind all that are due no later.
unfoldable pub insert_sleeper : Sleeper → List Sleeper → List Sleeper
insert_sleeper s [] = s ∷ []
insert_sleeper s (x ∷ xs) =
    let rest = insert_sleeper s xs in if leb x.due s.due then x ∷ rest else s ∷ x ∷ xs

-- The sum of the delays.
unfoldable pub total : Queuetab → List ℕ → ℕ
total t [] = 0
total t (x ∷ xs) = (t x).qkey + total t xs

-- The delays are not negative.
abbrev pub Delays : Queuetab → List ℕ → Type 0
Delays t [] = Unit {0}
Delays t (x ∷ xs) = ((t x).qkey < 2 ^ 31) × Delays t xs

-- The first of the list is due after `key`, counted from `acc`.
abbrev pub Later : Queuetab → ℕ → ℕ → List ℕ → Type 0
Later t key acc [] = Unit {0}
Later t key acc (y ∷ ys) = key < acc + (t y).qkey

pub record Spot (t : Queuetab) (key : ℕ) (ps xs ys : List ℕ) : Type 0 where
  pub parts : ps ≡ xs ++ ys
  pub before : total t xs ≤ key
  pub behind : Later t key (total t xs) ys

Later-shift :
    (t : Queuetab) (key d acc : ℕ) (ys : List ℕ)
    → d ≤ key
    → Later t (key - d) acc ys
    → Later t key (d + acc) ys
Later-shift t key d acc [] h l = tt
Later-shift t key d acc (y ∷ ys) h l = omega arith

abbrev standing : ℕ → ℕ → ℕ → Walk
standing key prev next = record { key = key; prev = prev; next = next }

walk-step :
    (t : Queuetab) (q key fuel a x : ℕ) (ps xs ys : List ℕ)
    → (x != queuetail q) ≡ true
    → sle (t x).qkey key ≡ true
    → sub32 key (t x).qkey ≡ key - (t x).qkey
    → (t x).qnext ≡ head_of ps (queuetail q)
    → insertd_walk t q fuel (standing (key - (t x).qkey) x (head_of ps (queuetail q)))
      ≡ standing (key - (t x).qkey - total t xs) (last_of x xs) (head_of ys (queuetail q))
    → insertd_walk t q (suc fuel) (standing key a x)
      ≡ standing (key - total t (x ∷ xs)) (last_of x xs) (head_of ys (queuetail q))
unfolding insertd_walk total
walk-step t q key fuel a x ps xs ys go more rest_key next e =
    rw (go, more, rest_key, next, insertd_walk)
      (e ∙ ap (λ r. standing r (last_of x xs) (head_of ys (queuetail q))) (omega arith))

-- The walk stops in front of the first process that is due later.
pub insertd_walk-Spot :
    (t : Queuetab) (q key fuel a : ℕ) (ps : List ℕ)
    → Chain t a ps (queuetail q)
    → Fresh (queuetail q) ps
    → Delays t ps
    → key < 2 ^ 31
    → length ps < fuel
    → (xs : List ℕ) × (ys : List ℕ) × Spot t key ps xs ys
      × (insertd_walk t q fuel (record { key = key; prev = a; next = head_of ps (queuetail q) })
          ≡ record { key = key - total t xs; prev = last_of a xs; next = head_of ys (queuetail q) })
unfolding insertd_walk total
insertd_walk-Spot t q key zero a ps c f d lt l = absurd (omega arith)
insertd_walk-Spot t q key (suc fuel) a [] c f d lt l =
    let stop : (queuetail q != queuetail q) ≡ false = ground arith in
    (
      [],
      [],
      record { parts = refl; before = omega arith; behind = tt },
      rw (stop, insertd_walk) (ap (λ r. standing r a (queuetail q)) (omega arith)),
    )
insertd_walk-Spot t q key (suc fuel) a (x ∷ ps) c f d lt l =
    let go : (x != queuetail q) ≡ true = ground (arith, f.0) in
    elim (Bool-cases (sle (t x).qkey key)) [
      | inl more ↦
          let le : (t x).qkey ≤ key = ground (arith, d.0) in
          let rest_key : sub32 key (t x).qkey ≡ key - (t x).qkey = omega arith in
          let (xs, ys, p, e) =
            insertd_walk-Spot t q (key - (t x).qkey) fuel x ps c.2 f.1 d.1 (omega arith)
              (omega arith) in
          (
            x ∷ xs,
            ys,
            record {
              parts = ap (λ zs. x ∷ zs) p.parts;
              before = omega (arith, p.before);
              behind = Later-shift t key (t x).qkey (total t xs) ys le p.behind;
            },
            walk-step t q key fuel a x ps xs ys go more rest_key
                (Chain-first t x (queuetail q) ps c.2) e,
          )
      | inr less ↦ (
        [],
        x ∷ ps,
        record { parts = refl; before = omega arith; behind = ground (arith, less, d.0) },
        rw (go, less, insertd_walk) (ap (λ r. standing r a x) (omega arith)),
      )
    ]

-- ===== src/Create/Pid.antt =====
-- The ids that `newpid` gives out.
use mathlib.Core.Path.{subst}
use os_demand_paging.Process.{Procent, state_eq, nproc, pr_free}
use os_demand_paging.Create.{newpid_loop, Procent, state_eq, nproc, pr_free, newpid}
use os_demand_paging.Base.{
  refl, zero, suc, inl, inr, Table, ℕ, ◌+◌, ◌%◌, ◌<◌, ◌⊎◌, ◌≡◌, syserr, true, arith, Bool-cases,
  sym, ap, ◌∙◌, ◌-◌,
}

abbrev pub IsUnused : Table Procent → ℕ → Type 0
IsUnused p i = state_eq (p i).prstate pr_free ≡ true

-- The `d`-th entry that the search looks at.
abbrev pub nth : ℕ → ℕ → ℕ
nth nextpid d = (nextpid + d) % nproc

-- The first unused entry of the first `n`.
pub record Next (p : Table Procent) (nextpid n : ℕ) (r : ℕ × ℕ) : Type 0 where
  pub dist : ℕ
  pub dist_lt : dist < n
  pub id : r.1 ≡ nth nextpid dist
  pub next : r.0 ≡ nth nextpid dist + 1
  pub unused : IsUnused p (nth nextpid dist)
  pub before : (e : ℕ) → e < dist → ¬ IsUnused p (nth nextpid e)

shift : (nextpid d : ℕ) → nth (nextpid % nproc + 1) d ≡ nth nextpid (d + 1)
shift nextpid d = omega arith

used-suc :
    (p : Table Procent) (nextpid n : ℕ)
    → ¬ IsUnused p (nextpid % nproc)
    → ((e : ℕ) → e < n → ¬ IsUnused p (nth (nextpid % nproc + 1) e))
    → (e : ℕ) → e < n + 1
    → ¬ IsUnused p (nth nextpid e)
used-suc p nextpid n here rest zero h u = here (subst (IsUnused p) (omega arith) u)
used-suc p nextpid n here rest (suc e) h u =
    rest e (omega arith) (subst (IsUnused p) (omega arith) u)

Next-suc :
    (p : Table Procent) (nextpid n : ℕ) (r : ℕ × ℕ)
    → ¬ IsUnused p (nextpid % nproc)
    → Next p (nextpid % nproc + 1) n r
    → Next p nextpid (suc n) r
Next-suc p nextpid n r here x = record {
  dist = x.dist + 1;
  dist_lt = omega (arith, x.dist_lt);
  id = x.id ∙ shift nextpid x.dist;
  next = x.next ∙ ap (λ i. i + 1) (shift nextpid x.dist);
  unused = rw (← shift nextpid x.dist) x.unused;
  before = used-suc p nextpid x.dist here x.before;
}

newpid_loop-Next :
    (n : ℕ) (p : Table Procent) (nextpid : ℕ)
    → Next p nextpid n (newpid_loop n p nextpid)
      ⊎ (((e : ℕ) → e < n → ¬ IsUnused p (nth nextpid e)) × ((newpid_loop n p nextpid).1 ≡ syserr))
unfolding newpid_loop
newpid_loop-Next zero p nextpid = inr (λ e h. absurd (omega arith), refl)
newpid_loop-Next (suc n) p nextpid =
    elim (Bool-cases (state_eq (p (nextpid % nproc)).prstate pr_free)) [
      | inl hit ↦
          let here : nth nextpid 0 ≡ nextpid % nproc = omega arith in
          rw hit (
            inl (record {
              dist = 0;
              dist_lt = omega arith;
              id = sym here;
              next = ap (λ i. i + 1) (sym here);
              unused = rw here hit;
              before = λ e h. absurd (omega arith);
            }))
      | inr miss ↦
          let here : ¬ IsUnused p (nextpid % nproc) = λ u. ground (arith, u, miss) in
          elim (newpid_loop-Next n p (nextpid % nproc + 1)) [
            | inl x ↦ rw miss (inl (Next-suc p nextpid n _ here x))
            | inr (none, e) ↦
                rw miss (inr (λ i h. used-suc p nextpid n here none i (omega arith), e))
          ]
    ]

-- `newpid` returns the id of the first unused entry of the process table, from `nextpid` on and
-- round the table, and the next search begins behind it; if every entry is in use it returns
-- `SYSERR`.
pub newpid_lem :
    (p : Table Procent) (nextpid : ℕ)
    → Next p nextpid nproc (newpid p nextpid)
      ⊎ (((i : ℕ) → i < nproc → ¬ IsUnused p i) × ((newpid p nextpid).1 ≡ syserr))
unfolding newpid
newpid_lem p nextpid = elim (newpid_loop-Next nproc p nextpid) [
  | inl x ↦ inl x
  | inr (none, e) ↦ inr (
    λ i h u.
        let at : nth nextpid ((i + (nproc - nextpid % nproc)) % nproc) ≡ i = omega arith in
        none ((i + (nproc - nextpid % nproc)) % nproc) (omega arith) (rw at u),
    e,
  )
]

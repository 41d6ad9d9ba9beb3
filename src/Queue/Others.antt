-- ===== src/Queue/Others.antt =====
-- What an operation on one queue leaves of another, and new queues.
use os_demand_paging.Process.{nproc}
use os_demand_paging.Queue.Refine.{IsQueue, AllProcs, AllProcs-Fresh}
use os_demand_paging.Queue.Chain.{Fresh, Relinks, head_of, last_of, Chain-keep}
use os_demand_paging.Queue.{Queuetab, newqueue, nqent, nproc, queuetail, minkey, maxkey, empty}
use os_demand_paging.Base.{
  add32, put, add32, refl, [], ◌∷◌, List, ℕ, ◌≢◌, ◌++◌, ◌+◌, ◌≤◌, ◌<◌, arith, ◌≡◌, sle, false,
  add32, ne→==,
}

-- No process is in both lists.
abbrev pub Disjoint : List ℕ → List ℕ → Type 0
Disjoint [] rs = Unit {0}
Disjoint (x ∷ xs) rs = Fresh x rs × Disjoint xs rs

-- The queue `r` with the processes `rs` has no node in common with the queue `q` with `ps`.
pub record Apart (q : ℕ) (ps : List ℕ) (r : ℕ) (rs : List ℕ) : Type 0 where
  pub heads : q ≢ r
  pub tails : q + 1 ≢ r
  pub crossed : q ≢ r + 1
  pub procs : Disjoint ps rs

Disjoint-last_of :
    (a : ℕ) (xs ys rs : List ℕ) → Fresh a rs → Disjoint (xs ++ ys) rs → Fresh (last_of a xs) rs
Disjoint-last_of a [] ys rs f d = f
Disjoint-last_of a (x ∷ xs) ys rs f d = Disjoint-last_of x xs ys rs d.0 d.1

Disjoint-head_of :
    (b : ℕ) (xs ys rs : List ℕ) → Fresh b rs → Disjoint (xs ++ ys) rs → Fresh (head_of ys b) rs
Disjoint-head_of b [] [] rs f d = f
Disjoint-head_of b [] (y ∷ ys) rs f d = d.0
Disjoint-head_of b (x ∷ xs) ys rs f d = Disjoint-head_of b xs ys rs f d.1

AllProcs-last_of :
    (a c : ℕ) (xs ys : List ℕ) → a ≢ c → nproc ≤ c → AllProcs (xs ++ ys) → last_of a xs ≢ c
AllProcs-last_of a c [] ys h hi ap = h
AllProcs-last_of a c (x ∷ xs) ys h hi ap = AllProcs-last_of x c xs ys (omega (arith, ap.0)) hi ap.1

AllProcs-head_of :
    (b c : ℕ) (xs ys : List ℕ) → b ≢ c → nproc ≤ c → AllProcs (xs ++ ys) → head_of ys b ≢ c
AllProcs-head_of b c [] [] h hi ap = h
AllProcs-head_of b c [] (y ∷ ys) h hi ap = omega (arith, ap.0)
AllProcs-head_of b c (x ∷ xs) ys h hi ap = AllProcs-head_of b c xs ys h hi ap.1

-- A change of links at the ends of `xs` and `ys` in one queue leaves the other.
pub relink-IsQueue :
    (t t' : Queuetab) (q r e : ℕ) (xs ys rs : List ℕ)
    → nproc ≤ q
    → AllProcs (xs ++ ys)
    → IsQueue t r rs
    → Apart q (xs ++ ys) r rs
    → Relinks t t' (last_of q xs) (head_of ys (queuetail q)) e
    → e < nproc
    → Fresh e rs
    → IsQueue t' r rs
relink-IsQueue t t' q r e xs ys rs lower procs o apart rel lt f = record {
  lower = o.lower;
  upper = o.upper;
  procs = o.procs;
  distinct = o.distinct;
  chain =
      Chain-keep t t' (last_of q xs) (head_of ys (queuetail q)) e r (queuetail r) rs rel
        (
          AllProcs-last_of q r xs ys apart.heads o.lower procs,
          Disjoint-last_of q xs ys rs (AllProcs-Fresh q rs lower o.procs) apart.procs,
        )
        (
          AllProcs-head_of (queuetail q) (queuetail r) xs ys (omega (arith, apart.heads))
              (omega (arith, o.lower)) procs,
          Disjoint-head_of (queuetail q) xs ys rs
              (AllProcs-Fresh (queuetail q) rs (omega (arith, lower)) o.procs) apart.procs,
        )
        (omega (arith, o.lower), omega (arith, o.lower), f) o.chain;
}

-- The two nodes of a new queue.
abbrev with_nodes : Queuetab → ℕ → Queuetab
with_nodes t q =
    put (put t q (record { qkey = maxkey; qnext = queuetail q; qprev = empty })) (queuetail q)
      (record { qkey = minkey; qnext = empty; qprev = q })

-- While an id is left, `newqueue` makes an empty queue of it with the least key at its tail, changes
-- no other entry, and keeps the id behind it for the next call.
pub newqueue-IsQueue :
    (t : Queuetab) (nextqid : ℕ)
    → nproc ≤ nextqid
    → nextqid + 1 < nqent
    → (t' : Queuetab) × (newqueue t nextqid ≡ (t', nextqid + 2, nextqid))
      × IsQueue t' nextqid []
      × ((t' (queuetail nextqid)).qkey ≡ minkey)
      × ((c : ℕ) → c ≢ nextqid → c ≢ queuetail nextqid → t' c ≡ t c)
unfolding newqueue
newqueue-IsQueue t nextqid lo hi =
    let room : sle nqent nextqid ≡ false = ground arith in
    let next : add32 nextqid 2 ≡ nextqid + 2 = omega arith in
    (
      with_nodes t nextqid,
      rw (room, next) refl,
      record {
        lower = lo;
        upper = hi;
        procs = tt;
        distinct = tt;
        chain = (ground arith, ground arith);
      },
      ground arith,
      λ c a b. rw (ne→== c nextqid a, ne→== c (queuetail nextqid) b),
    )

-- ===== src/Queue/Refine.antt =====
-- The queue operations against operations on lists of processes.
use os_demand_paging.Queue.Link.{getitem-Chain, link-Chain}
use os_demand_paging.Queue.Chain.{
  Fresh, Distinct, Chain, Distinct-split, last_of, head_of, Distinct-join, Chain-last, Relinks,
  Chain-keep,
}
use os_demand_paging.Process.{nproc, Procent, isbadpid}
use os_demand_paging.Queue.{
  Queuetab, isbadqid, nproc, nqent, queuetail, enqueue, getfirst, getitem, link, empty, isempty,
  dequeue, set_next, set_prev,
}
use mathlib.Core.List.{append-nil}
use os_demand_paging.Base.{
  refl, [], ◌∷◌, List, ℕ, ◌++◌, ◌<◌, ◌≡◌, ◌≤◌, false, arith, Table, ◌+◌, true,
}

abbrev pub AllProcs : List ℕ → Type 0
AllProcs [] = Unit {0}
AllProcs (x ∷ xs) = (x < nproc) × AllProcs xs

pub AllProcs-Fresh : (c : ℕ) (xs : List ℕ) → nproc ≤ c → AllProcs xs → Fresh c xs
AllProcs-Fresh c [] h a = tt
AllProcs-Fresh c (x ∷ xs) h a = (omega (arith, a.0), AllProcs-Fresh c xs h a.1)

AllProcs-split :
    (x : ℕ) (xs ys : List ℕ) → AllProcs (xs ++ x ∷ ys) → (x < nproc) × AllProcs (xs ++ ys)
AllProcs-split x [] ys a = a
AllProcs-split x (z ∷ xs) ys a = let r = AllProcs-split x xs ys a.1 in (r.0, (a.0, r.1))

AllProcs-join : (x : ℕ) (xs ys : List ℕ) → x < nproc → AllProcs (xs ++ ys) → AllProcs (xs ++ x ∷ ys)
AllProcs-join x [] ys h a = (h, a)
AllProcs-join x (z ∷ xs) ys h a = (a.0, AllProcs-join x xs ys h a.1)

-- The queue `q` of the table holds the processes `ps`, each once, first to last.
pub record IsQueue (t : Queuetab) (q : ℕ) (ps : List ℕ) : Type 0 where
  pub lower : nproc ≤ q
  pub upper : q + 1 < nqent
  pub procs : AllProcs ps
  pub distinct : Distinct ps
  pub chain : Chain t q ps (queuetail q)

pub good_qid : (t : Queuetab) (q : ℕ) (ps : List ℕ) → IsQueue t q ps → isbadqid q ≡ false
good_qid t q ps h = ground (arith, h.lower, h.upper)

pub good_pid : (p : Table Procent) (pid : ℕ) → isbadpid p pid ≡ false → pid < nproc
good_pid p pid h = ground arith

-- Where a process is put between `xs` and `ys` the queue is that list.
pub link-IsQueue :
    (t : Queuetab) (q pid : ℕ) (xs ys : List ℕ)
    → IsQueue t q (xs ++ ys)
    → pid < nproc
    → Fresh pid (xs ++ ys)
    → IsQueue (link t pid (last_of q xs) (head_of ys (queuetail q))) q (xs ++ pid ∷ ys)
link-IsQueue t q pid xs ys h lt f = record {
  lower = h.lower;
  upper = h.upper;
  procs = AllProcs-join pid xs ys lt h.procs;
  distinct = Distinct-join pid xs ys f h.distinct;
  chain =
      link-Chain t q (queuetail q) pid xs ys h.chain h.distinct
        (omega arith, AllProcs-Fresh q (xs ++ ys) h.lower h.procs)
        (AllProcs-Fresh (queuetail q) (xs ++ ys) (omega (arith, h.lower)) h.procs)
        (omega (arith, h.lower), omega (arith, h.lower), f);
}

-- `getitem` takes the process out of whatever queue it is in, and nothing else.
pub getitem-IsQueue :
    (t : Queuetab) (q pid : ℕ) (xs ys : List ℕ)
    → IsQueue t q (xs ++ pid ∷ ys)
    → IsQueue (getitem t pid).0 q (xs ++ ys)
getitem-IsQueue t q pid xs ys h = record {
  lower = h.lower;
  upper = h.upper;
  procs = (AllProcs-split pid xs ys h.procs).1;
  distinct = (Distinct-split pid xs ys h.distinct).1;
  chain =
      getitem-Chain t q (queuetail q) pid xs ys h.chain h.distinct
        (omega arith, AllProcs-Fresh q (xs ++ pid ∷ ys) h.lower h.procs)
        (AllProcs-Fresh (queuetail q) (xs ++ pid ∷ ys) (omega (arith, h.lower)) h.procs);
}

-- `enqueue` of a live process that is not in the queue returns it and puts it at the end.
pub enqueue-IsQueue :
    (p : Table Procent) (t : Queuetab) (q pid : ℕ) (ps : List ℕ)
    → IsQueue t q ps
    → isbadpid p pid ≡ false
    → Fresh pid ps
    → (t' : Queuetab) × (enqueue p t pid q ≡ (t', pid)) × IsQueue t' q (ps ++ pid ∷ [])
unfolding enqueue
enqueue-IsQueue p t q pid ps h live f =
    let nil : ps ++ [] ≡ ps = append-nil ps in
    (
      link t pid (last_of q ps) (queuetail q),
      rw (good_qid t q ps h, live, Chain-last t q (queuetail q) ps h.chain),
      link-IsQueue t q pid ps [] (rw nil h) (good_pid p pid live) (rw nil f),
    )

-- `getfirst` of a queue that is not empty.
getfirst-IsQueue :
    (t : Queuetab) (q x : ℕ) (ps : List ℕ)
    → IsQueue t q (x ∷ ps)
    → (t' : Queuetab) × (getfirst t q ≡ (t', x)) × IsQueue t' q ps
unfolding getfirst
getfirst-IsQueue t q x ps h =
    let some_first : isempty t q ≡ false = ground (arith, h.procs.0, h.chain.0) in
    (
      (getitem t x).0,
      rw (some_first, h.chain.0) (unfold getitem in refl),
      getitem-IsQueue t q x [] ps h,
    )

clear-Relinks : (t : Queuetab) (x : ℕ) → Relinks t (set_next (set_prev t x empty) x empty) x x x
clear-Relinks t x = record { nexts = λ c hp he. ground arith; prevs = λ c hn he. ground arith }

-- A write to keys leaves the queue.
pub keys-IsQueue :
    (t t' : Queuetab) (q : ℕ) (ps : List ℕ)
    → ((c : ℕ) → ((t' c).qnext ≡ (t c).qnext) × ((t' c).qprev ≡ (t c).qprev))
    → IsQueue t q ps
    → IsQueue t' q ps
keys-IsQueue t t' q ps same h =
    let f = AllProcs-Fresh nqent ps (omega arith) h.procs in
    record {
      lower = h.lower;
      upper = h.upper;
      procs = h.procs;
      distinct = h.distinct;
      chain =
          Chain-keep t t' nqent nqent nqent q (queuetail q) ps
            (record { nexts = λ c hp he. (same c).0; prevs = λ c hn he. (same c).1 })
            (omega (arith, h.upper), f) (omega (arith, h.upper), f)
            (omega (arith, h.upper), omega (arith, h.upper), f) h.chain;
    }

-- The links of a process outside of a queue may be cleared.
pub clear-IsQueue :
    (t : Queuetab) (q x : ℕ) (ps : List ℕ)
    → x < nproc
    → Fresh x ps
    → IsQueue t q ps
    → IsQueue (set_next (set_prev t x empty) x empty) q ps
clear-IsQueue t q x ps lt f h = record {
  lower = h.lower;
  upper = h.upper;
  procs = h.procs;
  distinct = h.distinct;
  chain =
      Chain-keep t (set_next (set_prev t x empty) x empty) x x x q (queuetail q) ps
        (clear-Relinks t x) (omega (arith, h.lower), f) (omega (arith, h.lower), f)
        (omega (arith, h.lower), omega (arith, h.lower), f) h.chain;
}

-- The result `r` of taking the first process from a queue that holds a list.
abbrev pub Dequeued : Queuetab → ℕ → List ℕ → Queuetab × ℕ → Type 0
Dequeued t q [] r = r ≡ (t, empty)
Dequeued t q (x ∷ ps) r =
    (t' : Queuetab) × (r ≡ (t', x))
    × IsQueue t' q ps
    × ((t' x).qnext ≡ empty)
    × ((t' x).qprev ≡ empty)

-- `dequeue` of a queue returns `EMPTY` if it is empty and changes nothing; otherwise it returns the
-- first process, leaves the others in their order, and clears the links of that process.
pub dequeue-Dequeued :
    (t : Queuetab) (q : ℕ) (ps : List ℕ) → IsQueue t q ps → Dequeued t q ps (dequeue t q)
unfolding dequeue
dequeue-Dequeued t q [] h =
    let none : isempty t q ≡ true = ground (arith, h.lower, h.upper, h.chain.0) in
    rw (good_qid t q [] h, none) refl
dequeue-Dequeued t q (x ∷ ps) h =
    let some_first : isempty t q ≡ false = ground (arith, h.procs.0, h.chain.0) in
    let (t', e, rest) = getfirst-IsQueue t q x ps h in
    (
      set_next (set_prev t' x empty) x empty,
      rw (good_qid t q (x ∷ ps) h, some_first, e),
      clear-IsQueue t' q x ps h.procs.0 h.distinct.0 rest,
      ground arith,
      ground arith,
    )

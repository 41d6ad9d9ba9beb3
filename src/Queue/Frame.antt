-- ===== src/Queue/Frame.antt =====
-- The operations on one queue leave every other queue as it is.
use os_demand_paging.Queue.Link.{link-Relinks, getitem-Relinks}
use os_demand_paging.Queue.Chain.{Chain-at}
use os_demand_paging.Queue.Chain.{Fresh, last_of, head_of, Chain-last}
use os_demand_paging.Queue.Others.{Apart, relink-IsQueue}
use os_demand_paging.Queue.Refine.{IsQueue, good_qid, clear-IsQueue, good_pid}
use os_demand_paging.Process.{Procent, nproc, isbadpid}
use os_demand_paging.Queue.{
  Queuetab, dequeue, enqueue, getfirst, Procent, getitem, isempty, link, queuetail,
}
use mathlib.Core.List.{append-nil}
use os_demand_paging.Base.{
  [], ◌∷◌, Table, ℕ, List, ◌++◌, ◌<◌, Bool-cases, ◌≡◌, true, arith, inl, false, inr,
}

pub link-other :
    (t : Queuetab) (q r pid : ℕ) (xs ys rs : List ℕ)
    → IsQueue t q (xs ++ ys)
    → IsQueue t r rs
    → Apart q (xs ++ ys) r rs
    → pid < nproc
    → Fresh pid rs
    → IsQueue (link t pid (last_of q xs) (head_of ys (queuetail q))) r rs
link-other t q r pid xs ys rs h o apart lt f =
    relink-IsQueue t _ q r pid xs ys rs h.lower h.procs o apart
      (link-Relinks t pid (last_of q xs) (head_of ys (queuetail q))) lt f

-- `enqueue` on one queue of a process, live or not, that is not in another queue: the other queue
-- keeps its processes and their order.
pub enqueue-other :
    (p : Table Procent) (t : Queuetab) (q r pid : ℕ) (ps rs : List ℕ)
    → IsQueue t q ps
    → IsQueue t r rs
    → Apart q ps r rs
    → Fresh pid rs
    → IsQueue (enqueue p t pid q).0 r rs
unfolding enqueue
enqueue-other p t q r pid ps rs h o apart f = elim (Bool-cases (isbadpid p pid)) [
  | inl bad ↦ rw (good_qid t q ps h, bad) o
  | inr live ↦
      rw (good_qid t q ps h, live, Chain-last t q (queuetail q) ps h.chain)
        (link-other t q r pid ps [] rs (rw (append-nil ps) h) o (rw (append-nil ps) apart)
          (good_pid p pid live) f)
]

getitem-other :
    (t : Queuetab) (q r x : ℕ) (ps rs : List ℕ)
    → IsQueue t q (x ∷ ps)
    → IsQueue t r rs
    → Apart q (x ∷ ps) r rs
    → IsQueue (getitem t x).0 r rs
getitem-other t q r x ps rs h o apart =
    let (next, prev) = Chain-at t q (queuetail q) x [] ps h.chain in
    relink-IsQueue t (getitem t x).0 q r x [] ps rs h.lower h.procs.1 o
      (record {
        heads = apart.heads;
        tails = apart.tails;
        crossed = apart.crossed;
        procs = apart.procs.1;
      })
      (rw (← next, ← prev) (getitem-Relinks t x)) h.procs.0 apart.procs.0

-- `dequeue` of a queue: another one keeps its processes and their order.
pub dequeue-other :
    (t : Queuetab) (q r : ℕ) (ps rs : List ℕ)
    → IsQueue t q ps
    → IsQueue t r rs
    → Apart q ps r rs
    → IsQueue (dequeue t q).0 r rs
unfolding dequeue getfirst getitem
dequeue-other t q r [] rs h o apart =
    let none : isempty t q ≡ true = ground (arith, h.lower, h.upper, h.chain.0) in
    rw (good_qid t q [] h, none) o
dequeue-other t q r (x ∷ ps) rs h o apart =
    let some_first : isempty t q ≡ false = ground (arith, h.procs.0, h.chain.0) in
    rw (good_qid t q (x ∷ ps) h, some_first, h.chain.0)
      (clear-IsQueue (getitem t x).0 r x rs h.procs.0 apart.procs.0
        (getitem-other t q r x ps rs h o apart))

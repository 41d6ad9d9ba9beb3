-- ===== src/Queue/Slept.antt =====
-- `insertd` and `unsleep` against operations on lists of due times.
use os_demand_paging.Queue.Order.{length-IsQueue}
use os_demand_paging.Queue.Due.{
  sleepers-Inserted, Delays-keep, Delays-split, Delays-join, Fresh-append, Distinct-append,
  not_head, Shortened, Delays-Shortened,
}
use os_demand_paging.Process.{nproc, Procent, isbadpid}
use os_demand_paging.Queue.Refine.{
  IsQueue, AllProcs-Fresh, keys-IsQueue, link-IsQueue, good_qid, good_pid,
}
use os_demand_paging.Queue.Insert.{link-keys}
use mathlib.Core.Path.{subst, sym}
use os_demand_paging.Queue.Delta.{
  sleepers, insert_sleeper, total, Later, Delays, Spot, insertd_walk-Spot,
}
use os_demand_paging.Queue.Chain.{Fresh, Distinct, head_of, last_of, Fresh-head_of, Chain-first}
use os_demand_paging.Queue.{Queuetab, queuetail, set_key, link, insertd, nproc, nqent}
use os_demand_paging.Base.{
  refl, false, [], ◌∷◌, ◌-◌, ◌++◌, ℕ, ◌≡◌, arith, ◌≤◌, List, sym, ◌≢◌, ◌<◌, ◌^◌, if◌then◌else◌,
  sym_ne, ◌!=◌, sub32, Table, ok,
}

-- The table after `insertd`, where the walk stopped between `xs` and `ys`.
abbrev placed : Queuetab → ℕ → ℕ → ℕ → List ℕ → List ℕ → Queuetab
placed t q pid r xs ys =
    let next = head_of ys (queuetail q) in
    let t1 = set_key (link t pid (last_of q xs) next) pid r in
    if next != queuetail q then set_key t1 next (sub32 (t1 next).qkey r) else t1

-- The keys of that table.
placed-other :
    (t : Queuetab) (q pid r c : ℕ) (xs ys : List ℕ)
    → c ≢ pid
    → c ≢ head_of ys (queuetail q)
    → (placed t q pid r xs ys c).qkey ≡ (t c).qkey
placed-other t q pid r c xs ys h n =
    ground (arith, link-keys t pid (last_of q xs) (head_of ys (queuetail q)) r c h)

placed-own :
    (t : Queuetab) (q pid r : ℕ) (xs ys : List ℕ)
    → pid ≢ head_of ys (queuetail q)
    → (placed t q pid r xs ys pid).qkey ≡ r
placed-own t q pid r xs ys h = ground arith

placed-Shortened :
    (t : Queuetab) (q pid key : ℕ) (xs ys : List ℕ)
    → Fresh pid ys
    → Distinct ys
    → Fresh (queuetail q) ys
    → Delays t ys
    → total t xs ≤ key
    → Later t key (total t xs) ys
    → key < 2 ^ 31
    → Shortened t (placed t q pid (key - total t xs) xs ys) (key - total t xs) ys
placed-Shortened t q pid key xs [] f d tl dl le l lt = tt
placed-Shortened t q pid key xs (y ∷ ys) f d tl dl le l lt = (
  ground
      (arith, f.0, tl.0, dl.0, link-keys t pid (last_of q xs) y (key - total t xs) y (sym_ne f.0)),
  λ x h.
      placed-other t q pid (key - total t xs) x xs (y ∷ ys)
        (λ e. h (subst (λ z. Fresh z ys) (sym e) f.1))
        (λ e. h (subst (λ z. Fresh z ys) (sym e) d.0)),
)

-- The sleep queue after an insertion: the processes and the times at which they are due.
pub record Slept (t : Queuetab) (q pid key : ℕ) (ps : List ℕ) (t' : Queuetab) : Type 0 where
  pub queued : List ℕ
  pub queue : IsQueue t' q queued
  pub delays : Delays t' queued
  pub same :
      sleepers t' 0 queued ≡ insert_sleeper (record { pid = pid; due = key }) (sleepers t 0 ps)

placed-Slept :
    (t : Queuetab) (q pid key : ℕ) (ps xs ys : List ℕ)
    → IsQueue t q ps
    → Delays t ps
    → pid < nproc
    → Fresh pid ps
    → key < 2 ^ 31
    → Spot t key ps xs ys
    → Slept t q pid key ps (placed t q pid (key - total t xs) xs ys)
placed-Slept t q pid key ps xs ys h d lt f small p =
    let r = key - total t xs in
    let t' = placed t q pid r xs ys in
    let next = head_of ys (queuetail q) in
    let h' = subst (IsQueue t q) p.parts h in
    let (fx, fy) = Fresh-append pid xs ys (subst (Fresh pid) p.parts f) in
    let (dx, dy) = Delays-split t xs ys (subst (Delays t) p.parts d) in
    let (disx, disy) = Distinct-append xs ys h'.distinct in
    let tails = AllProcs-Fresh (queuetail q) (xs ++ ys) (omega (arith, h.lower)) h'.procs in
    let ty = (Fresh-append (queuetail q) xs ys tails).1 in
    let not_next = Fresh-head_of pid (queuetail q) [] ys (omega (arith, h.lower)) fy in
    let same : (x : ℕ) → ¬ Fresh x xs → (t' x).qkey ≡ (t x).qkey = λ x m.
      placed-other t q pid r x xs ys (λ e. m (subst (λ z. Fresh z xs) (sym e) fx))
        (not_head x (queuetail q) xs ys m (Fresh-append (queuetail q) xs ys tails).0 h'.distinct) in
    let mine = placed-own t q pid r xs ys not_next in
    let later = placed-Shortened t q pid key xs ys fy disy ty dy p.before p.behind small in
    record {
      queued = xs ++ pid ∷ ys;
      queue =
          keys-IsQueue (link t pid (last_of q xs) next) t' q (xs ++ pid ∷ ys)
            (λ c. (ground arith, ground arith))
            (link-IsQueue t q pid xs ys h' lt (subst (Fresh pid) p.parts f));
      delays =
          Delays-join t' xs (pid ∷ ys) (Delays-keep t t' xs same dx)
            (omega (arith, mine), Delays-Shortened t t' r ys later dy);
      same = sleepers-Inserted t t' pid key ps xs ys p same mine later;
    }

-- `insertd` of a live process that is not in the queue, with a delay that is not negative, succeeds.
-- Read as a list of processes with the times at which they are due, the sleep queue is what it was,
-- with the process inserted behind all that are due no later: no other process is due at another time.
-- The keys stay delays that are not negative.
pub insertd-Slept :
    (p : Table Procent) (t : Queuetab) (q pid key : ℕ) (ps : List ℕ)
    → IsQueue t q ps
    → Delays t ps
    → isbadpid p pid ≡ false
    → Fresh pid ps
    → key < 2 ^ 31
    → (t' : Queuetab) × (insertd p t pid q key ≡ (t', ok)) × Slept t q pid key ps t'
unfolding insertd
insertd-Slept p t q pid key ps h d live f lt =
    let tails = AllProcs-Fresh (queuetail q) ps (omega (arith, h.lower)) h.procs in
    let (xs, ys, spot, walk) =
      insertd_walk-Spot t q key nqent q ps h.chain tails d lt
        (omega (arith, length-IsQueue t q ps h)) in
    (
      placed t q pid (key - total t xs) xs ys,
      rw (good_qid t q ps h, live, Chain-first t q (queuetail q) ps h.chain, walk) refl,
      placed-Slept t q pid key ps xs ys h d (good_pid p pid live) f lt spot,
    )

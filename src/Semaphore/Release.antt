-- ===== src/Semaphore/Release.antt =====
-- `signal` against the queue of the semaphore.
use native.Mathlib.Decide.{ℕ_discrete}
use os_demand_paging.Queue.Refine.{dequeue-Dequeued}
use os_demand_paging.Queue.{dequeue}
use os_demand_paging.Process.{nproc}
use os_demand_paging.Queue.Order.{length-IsQueue}
use os_demand_paging.Semaphore.Balance.{Balanced, counted-IsSem}
use mathlib.Core.Path.{fun_ext, ap}
use os_demand_paging.Sched.{ready}
use os_demand_paging.Semaphore.Balance.{IsSem, Balanced, counted}
use os_demand_paging.Semaphore.{signal, release_one, ready, set_sem, nproc}
use os_demand_paging.Kernel.{Kernel, done, ◌>>◌, pure, Run, and_then, switch, halt}
use os_demand_paging.Base.{
  length, refl, inl, inr, [], ◌∷◌, ℕ, List, ◌≡◌, ◌≢◌, ok, ◌^◌, ◌-◌, add32, slt, false, arith, ◌≤◌,
  ap, true, ==_refl, sym, ◌+◌,
}

-- What `signal` does on a semaphore with a list of waiting processes: it counts up, and makes the
-- first process ready if there is one.
abbrev pub Signalled : Kernel → ℕ → List ℕ → Type 0
Signalled k sem [] =
    (k' : Kernel) × (signal sem k ≡ done k' ok)
    × IsSem k' sem []
    × (k'.semtab ≡ counted k sem ((k.semtab sem).scount + 1))
    × (k'.queuetab ≡ k.queuetab)
    × (k'.proctab ≡ k.proctab)
Signalled k sem (x ∷ ps) =
    (k' : Kernel) × (signal sem k ≡ (ready x >> pure ok) k')
    × IsSem k' sem ps
    × (k'.semtab ≡ counted k sem (add32 (k.semtab sem).scount 1))
    × (k'.queuetab ≡ (dequeue k.queuetab (k.semtab sem).squeue).0)
    × (k'.proctab ≡ k.proctab)

count_up :
    (scount : ℕ) (x : ℕ) (ps : List ℕ)
    → length (x ∷ ps) ≤ nproc
    → Balanced scount (x ∷ ps)
    → (slt scount 0 ≡ true) × Balanced (add32 scount 1) ps
count_up scount x ps le (inl (none, lt)) = absurd (omega arith)
count_up scount x ps le (inr (pos, e)) = elim (ℕ_discrete (length ps) 0) [
  | yes last ↦ (ground arith, inl (last, omega arith))
  | no more ↦ (ground arith, inr (omega arith, omega arith))
]

-- A result that is dropped.
drop_unit :
    (r : Run ℕ) → and_then (and_then r (λ _. pure tt)) (λ _. pure ok) ≡ and_then r (λ _. pure ok)
drop_unit (done k a) = refl
drop_unit (switch k next) = ap (λ f. switch k f) (fun_ext (λ k'. drop_unit (next k')))
drop_unit (halt k) = refl

-- `signal` on an open semaphore, whose count is not the largest, adds one to its count and changes no
-- other semaphore. If no process waits that is all; otherwise it also takes the process that has waited
-- longest from the queue and makes it ready. The count is balanced with the queue in both cases.
pub signal-Signalled :
    (k : Kernel) (sem : ℕ) (ps : List ℕ)
    → IsSem k sem ps
    → (k.semtab sem).scount ≢ 2 ^ 31 - 1
    → Signalled k sem ps
unfolding signal release_one
signal-Signalled k sem [] s most =
    let n = add32 (k.semtab sem).scount 1 in
    let idle : slt (k.semtab sem).scount 0 ≡ false = ground (arith, s.balance) in
    let up : n ≡ (k.semtab sem).scount + 1 = ground (arith, s.balance) in
    let balance : Balanced n [] = inl (refl, ground (arith, s.balance)) in
    (
      set_sem sem (λ s. record s { scount = n }) k,
      rw (s.opened, idle) refl,
      counted-IsSem k sem n [] s.opened s.queue balance,
      ap (counted k sem) up,
      refl,
      refl,
    )
signal-Signalled k sem (x ∷ ps) s most =
    let n = add32 (k.semtab sem).scount 1 in
    let (waiting, balance) =
      count_up (k.semtab sem).scount x ps
        (length-IsQueue k.queuetab (k.semtab sem).squeue (x ∷ ps) s.queue) s.balance in
    let (t, e, q, _, _) = dequeue-Dequeued k.queuetab (k.semtab sem).squeue (x ∷ ps) s.queue in
    let k' : Kernel = record (set_sem sem (λ s. record s { scount = n }) k) { queuetab = t } in
    (
      k',
      rw (s.opened, ==_refl sem, waiting, e) (drop_unit (ready x k')),
      counted-IsSem (record k { queuetab = t }) sem n ps s.opened q balance,
      refl,
      sym (ap (λ r. r.0) e),
      refl,
    )

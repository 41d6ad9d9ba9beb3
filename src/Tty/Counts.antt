-- ===== src/Tty/Counts.antt =====
-- The counts of the semaphores where no process waits.
use os_demand_paging.Semaphore.{
  isbadsem, semcount, signal, signaln, signal_loop, release_one, set_sem,
}
use os_demand_paging.Sched.{resched_cntl}
use os_demand_paging.Kernel.{Kernel, done}
use os_demand_paging.Base.{
  ℕ, zero, suc, ◌+◌, ◌<◌, ◌^◌, ◌≡◌, true, false, slt, sle, arith, refl, ok, ◌&&◌, add32, ◌∙◌, ◌==◌,
  ◌-◌, if◌then◌else◌, sub32,
}

-- An open semaphore with a count that is not below zero.
pub record IsIdle (k : Kernel) (sem n : ℕ) : Type 0 where
  pub good : isbadsem sem ≡ false
  pub used : (k.semtab sem).used ≡ true
  pub count : (k.semtab sem).scount ≡ n
  pub limit : n + 1 < 2 ^ 31

-- The kernel `k'` after the count was raised.
pub record Raised (k : Kernel) (sem n : ℕ) (k' : Kernel) : Type 0 where
  pub used : (k'.semtab sem).used ≡ true
  pub count : (k'.semtab sem).scount ≡ n
  pub tty : k'.tty ≡ k.tty
  pub ndefers : k'.ndefers ≡ k.ndefers
  pub attempt : k'.attempt ≡ k.attempt

release_one-Raised :
    (k : Kernel) (sem n : ℕ)
    → IsIdle k sem n
    → (k' : Kernel) × (release_one sem k ≡ done k' tt) × Raised k sem (n + 1) k'
unfolding release_one
release_one-Raised k sem n i =
    let idle : slt (k.semtab sem).scount 0 ≡ false = ground (arith, i.count, i.limit) in
    (
      set_sem sem (λ s. record s { scount = add32 s.scount 1 }) k,
      rw idle refl,
      record {
        used = ground (arith, i.used);
        count = ground (arith, i.count, i.limit);
        tty = refl;
        ndefers = refl;
        attempt = refl;
      },
    )

pub signal-Raised :
    (k : Kernel) (sem n : ℕ)
    → IsIdle k sem n
    → (k' : Kernel) × (signal sem k ≡ done k' ok) × Raised k sem (n + 1) k'
unfolding signal
signal-Raised k sem n i =
    let (k', e, r) = release_one-Raised k sem n i in (k', rw (i.good, i.used, e) refl, r)

signal_loop-Raised :
    (rounds : ℕ) (k : Kernel) (sem n : ℕ)
    → isbadsem sem ≡ false
    → (k.semtab sem).used ≡ true
    → (k.semtab sem).scount ≡ n
    → n + rounds < 2 ^ 31
    → (k' : Kernel) × (signal_loop sem rounds k ≡ done k' tt) × Raised k sem (n + rounds) k'
unfolding signal_loop
signal_loop-Raised zero k sem n g u c l = (
  k,
  refl,
  record { used = u; count = omega (arith, c); tty = refl; ndefers = refl; attempt = refl },
)
signal_loop-Raised (suc m) k sem n g u c l =
    let (k1, e1, r1) =
      release_one-Raised k sem n (record { good = g; used = u; count = c; limit = omega arith }) in
    let (k2, e2, r2) = signal_loop-Raised m k1 sem (n + 1) g r1.used r1.count (omega arith) in
    (
      k2,
      rw (e1, e2) refl,
      record {
        used = r2.used;
        count = omega (arith, r2.count);
        tty = r2.tty ∙ r1.tty;
        ndefers = r2.ndefers ∙ r1.ndefers;
        attempt = r2.attempt ∙ r1.attempt;
      },
    )

-- `signaln` raises the count by as much as is asked for, and no process comes to run.
pub signaln-Raised :
    (k : Kernel) (sem n rounds : ℕ)
    → IsIdle k sem n
    → n + rounds < 2 ^ 31
    → k.ndefers < 2 ^ 31 - 1
    → (k' : Kernel) × (signaln sem rounds k ≡ done k' ok)
      × ((k'.semtab sem).used ≡ true)
      × ((k'.semtab sem).scount ≡ n + rounds)
      × (k'.tty ≡ k.tty)
      × (k'.ndefers ≡ k.ndefers)
unfolding signaln resched_cntl
signaln-Raised k sem n rounds i fits d =
    let k1 : Kernel = record k {
      ndefers = add32 k.ndefers 1;
      attempt = if k.ndefers == 0 then false else k.attempt;
    } in
    let (k2, e, r) = signal_loop-Raised rounds k1 sem n i.good i.used i.count fits in
    let positive : slt rounds 0 ≡ false = ground arith in
    let some_defers : sle k2.ndefers 0 ≡ false = ground (arith, r.ndefers) in
    let back : sub32 k2.ndefers 1 ≡ k.ndefers = ground (arith, r.ndefers) in
    let quiet : (k.ndefers == 0 && k2.attempt) ≡ false = ground (arith, r.attempt) in
    (
      record k2 { ndefers = sub32 k2.ndefers 1 },
      rw (i.good, positive, i.used, e, some_defers, back, quiet) refl,
      r.used,
      r.count,
      r.tty,
      back,
    )

pub semcount-count : (k : Kernel) (sem n : ℕ) → IsIdle k sem n → semcount sem k ≡ done k n
unfolding semcount
semcount-count k sem n i = rw (i.good, i.used, i.count) refl

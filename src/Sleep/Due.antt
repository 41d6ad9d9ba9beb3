-- ===== src/Sleep/Due.antt =====
-- `unsleep` and the clock on the sleep queue, read as a list of due times.
use mathlib.Core.Path.{subst, sym}
use os_demand_paging.Process.{isbadpid, nproc, pr_sleep, pr_rectim}
use os_demand_paging.Kernel.{Kernel}
use os_demand_paging.Queue.Refine.{AllProcs, IsQueue, AllProcs-Fresh, getitem-IsQueue, keys-IsQueue}
use os_demand_paging.Queue.{Queuetab, getitem, queuetail, set_key}
use os_demand_paging.Queue.Delta.{Sleeper, sleepers, total, Delays}
use os_demand_paging.Queue.Due.{
  Distinct-append, sleepers-keep, sleeper, Fresh-append, Distinct-append, Delays-split, not_head,
  total-keep, sleepers-append,
}
use os_demand_paging.Queue.Chain.{Fresh, head_of, Distinct, Chain-at, Distinct-split}
use os_demand_paging.Sleep.{Queuetab, getitem, unsleep, Kernel, isbadpid, nproc}
use os_demand_paging.Base.{
  refl, true, false, [], ◌∷◌, if◌then◌else◌, ◌++◌, ℕ, ◌≡◌, ◌+◌, ◌==◌, arith, List, ap, ◌≢◌, slt,
  ◌∙◌, ◌<◌, ◌^◌, add32, ◌⊎◌, sym, ok, inl, inr,
}

-- The list without a process.
unfoldable pub remove_sleeper : ℕ → List Sleeper → List Sleeper
remove_sleeper pid [] = []
remove_sleeper pid (x ∷ xs) =
    let rest = remove_sleeper pid xs in if x.pid == pid then rest else x ∷ rest

remove-sleepers-none :
    (t : Queuetab) (pid acc : ℕ) (xs : List ℕ)
    → Fresh pid xs
    → remove_sleeper pid (sleepers t acc xs) ≡ sleepers t acc xs
unfolding remove_sleeper sleepers
remove-sleepers-none t pid acc [] f = refl
remove-sleepers-none t pid acc (x ∷ xs) f =
    let other : (x == pid) ≡ false = ground (arith, f.0) in
    rw other (
      ap (λ zs. sleeper x (acc + (t x).qkey) ∷ zs)
        (remove-sleepers-none t pid (acc + (t x).qkey) xs f.1))

remove-sleepers :
    (t : Queuetab) (pid acc : ℕ) (xs ys : List ℕ)
    → Fresh pid xs
    → Fresh pid ys
    → remove_sleeper pid (sleepers t acc (xs ++ pid ∷ ys))
      ≡ sleepers t acc xs ++ sleepers t (acc + total t xs + (t pid).qkey) ys
unfolding remove_sleeper sleepers total
remove-sleepers t pid acc [] ys f g =
    let same : (pid == pid) ≡ true = ground arith in
    let sum : acc + 0 + (t pid).qkey ≡ acc + (t pid).qkey = omega arith in
    rw (same, sum) (remove-sleepers-none t pid (acc + (t pid).qkey) ys g)
remove-sleepers t pid acc (x ∷ xs) ys f g =
    let other : (x == pid) ≡ false = ground (arith, f.0) in
    let sum : acc + ((t x).qkey + total t xs) + (t pid).qkey
        ≡ acc + (t x).qkey + total t xs + (t pid).qkey =
      omega arith in
    rw (other, sum)
      (ap (λ zs. sleeper x (acc + (t x).qkey) ∷ zs)
        (remove-sleepers t pid (acc + (t x).qkey) xs ys f.1 g))

-- The keys behind a process that leaves: the first is lengthened by its delay `d`.
abbrev Lengthened : Queuetab → Queuetab → ℕ → List ℕ → Type 0
Lengthened t t' d [] = Unit {0}
Lengthened t t' d (y ∷ ys) =
    ((t' y).qkey ≡ (t y).qkey + d) × ((x : ℕ) → ¬ Fresh x ys → (t' x).qkey ≡ (t x).qkey)

sleepers-Lengthened :
    (t t' : Queuetab) (acc d : ℕ) (ys : List ℕ)
    → Lengthened t t' d ys
    → sleepers t' acc ys ≡ sleepers t (acc + d) ys
unfolding sleepers
sleepers-Lengthened t t' acc d [] s = refl
sleepers-Lengthened t t' acc d (y ∷ ys) s =
    let due : acc + (t' y).qkey ≡ acc + d + (t y).qkey = omega (arith, s.0) in
    rw due (
      ap (λ zs. sleeper y (acc + d + (t y).qkey) ∷ zs)
        (sleepers-keep t t' (acc + d + (t y).qkey) ys s.1))

getitem-keys : (t : Queuetab) (pid c : ℕ) → ((getitem t pid).0 c).qkey ≡ (t c).qkey
unfolding getitem
getitem-keys t pid c = ground arith

-- The table that `unsleep` leaves, where the process stands between `xs` and `ys`.
abbrev handed_on : Queuetab → ℕ → ℕ → List ℕ → Queuetab
handed_on t q pid ys =
    let next = head_of ys (queuetail q) in
    if slt next nproc then set_key t next (add32 (t next).qkey (t pid).qkey) else t

handed_on-other :
    (t : Queuetab) (q pid x : ℕ) (ys : List ℕ)
    → x ≢ head_of ys (queuetail q)
    → ((getitem (handed_on t q pid ys) pid).0 x).qkey ≡ (t x).qkey
handed_on-other t q pid x ys h = getitem-keys (handed_on t q pid ys) pid x ∙ ground arith

handed_on-Lengthened :
    (t : Queuetab) (q pid : ℕ) (ys : List ℕ)
    → AllProcs ys
    → Distinct ys
    → Delays t ys
    → (t pid).qkey < 2 ^ 31
    → Lengthened t (getitem (handed_on t q pid ys) pid).0 (t pid).qkey ys
handed_on-Lengthened t q pid [] a d l h = tt
handed_on-Lengthened t q pid (y ∷ ys) a d l h = (
  getitem-keys (handed_on t q pid (y ∷ ys)) pid y ∙ ground (arith, a.0, l.0),
  λ x m. handed_on-other t q pid x (y ∷ ys) (λ e. m (subst (λ z. Fresh z ys) (sym e) d.0)),
)

AllProcs-append : (xs ys : List ℕ) → AllProcs (xs ++ ys) → AllProcs ys
AllProcs-append [] ys a = a
AllProcs-append (x ∷ xs) ys a = AllProcs-append xs ys a.1

-- `unsleep` of a process that sleeps, or waits for a message with a time limit, takes it out of the
-- sleep queue, and succeeds. The others stay in their order, and each is due at the time at which it
-- was due before.
pub unsleep-Woken :
    (k : Kernel) (pid : ℕ) (xs ys : List ℕ)
    → IsQueue k.queuetab k.sleepq (xs ++ pid ∷ ys)
    → Delays k.queuetab (xs ++ pid ∷ ys)
    → isbadpid k.proctab pid ≡ false
    → ((k.proctab pid).prstate ≡ pr_sleep) ⊎ ((k.proctab pid).prstate ≡ pr_rectim)
    → (t' : Queuetab) × (unsleep pid k ≡ (record k { queuetab = t' }, ok))
      × IsQueue t' k.sleepq (xs ++ ys)
      × (sleepers t' 0 (xs ++ ys) ≡ remove_sleeper pid (sleepers k.queuetab 0 (xs ++ pid ∷ ys)))
unfolding unsleep
unsleep-Woken k pid xs ys h d live asleep =
    let t = k.queuetab in
    let q = k.sleepq in
    let t' = (getitem (handed_on t q pid ys) pid).0 in
    let next = (Chain-at t q (queuetail q) pid xs ys h.chain).0 in
    let (apart, dis) = Distinct-split pid xs ys h.distinct in
    let (fx, fy) = Fresh-append pid xs ys apart in
    let (disx, disy) = Distinct-append xs ys dis in
    let (dx, (dp, dy)) = Delays-split t xs (pid ∷ ys) d in
    let procs = AllProcs-append xs (pid ∷ ys) h.procs in
    let tails = AllProcs-Fresh (queuetail q) (xs ++ pid ∷ ys) (omega (arith, h.lower)) h.procs in
    let same : (x : ℕ) → ¬ Fresh x xs → (t' x).qkey ≡ (t x).qkey = λ x m.
      handed_on-other t q pid x ys
        (not_head x (queuetail q) xs ys m (Fresh-append (queuetail q) xs (pid ∷ ys) tails).0 dis) in
    let behind = handed_on-Lengthened t q pid ys procs.1 disy dy dp in
    let sums = total-keep t t' xs same in
    (
      t',
      rw (live, next) (elim asleep [ inl e ↦ rw e refl | inr e ↦ rw e refl ]),
      getitem-IsQueue (handed_on t q pid ys) q pid xs ys (
          keys-IsQueue t (handed_on t q pid ys) q (xs ++ pid ∷ ys)
            (λ c. (ground arith, ground arith)) h),
      sleepers-append t' 0 xs ys
          ∙ rw (sleepers-keep t t' 0 xs same, sums) refl
          ∙ ap (λ zs. sleepers t 0 xs ++ zs)
              (sleepers-Lengthened t t' (0 + total t xs) (t pid).qkey ys behind)
          ∙ sym (remove-sleepers t pid 0 xs ys fx fy),
    )

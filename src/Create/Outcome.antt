-- ===== src/Create/Outcome.antt =====
-- What `create` returns, and what it does to the process table.
use os_demand_paging.FreeList.{getstk}
use os_demand_paging.Process.{Procent, nproc, pr_susp, state_eq, pr_free}
use os_demand_paging.Kernel.{Kernel, done}
use os_demand_paging.Create.Pid.{IsUnused, newpid_lem, Next}
use os_demand_paging.Create.{
  create, fill_entry, stack_size, build_stack, with_stack, Kernel, Procent, nproc, getstk, pr_susp,
  state_eq, pr_free, done, newpid,
}
use os_demand_paging.Base.{
  refl, inl, inr, true, false, ℕ, ◌≡◌, ◌+◌, ◌<◌, ◌≢◌, ◌==◌, arith, ◌⊎◌, Table, List, slt, count_if,
  not, add32, count_if_suc, syserr, Bool-cases,
}

-- The processes in use.
abbrev pub live : Table Procent → ℕ
live p = count_if (λ i. not (state_eq (p i).prstate pr_free)) nproc 0

-- No process is made.
pub record Refused (k : Kernel) (priority ssize : ℕ) (k' : Kernel) : Type 0 where
  pub why :
      (slt priority 1 ≡ true)
      ⊎ ((i : ℕ) → i < nproc → ¬ IsUnused k.proctab i)
      ⊎ ((getstk k.memory (stack_size ssize)).1 ≡ syserr)
  pub proctab : k'.proctab ≡ k.proctab
  pub prcount : k'.prcount ≡ k.prcount
  pub vm : k'.vm ≡ k.vm

-- A process is made, in the entry `pid`.
pub record Created (k : Kernel) (user pid priority ssize : ℕ) (k' : Kernel) : Type 0 where
  pub priority_pos : slt priority 1 ≡ false
  pub pid_lt : pid < nproc
  pub unused : IsUnused k.proctab pid
  pub state : (k'.proctab pid).prstate ≡ pr_susp
  pub prio : (k'.proctab pid).prprio ≡ priority
  pub parent : (k'.proctab pid).prparent ≡ k.currpid
  pub message : (k'.proctab pid).prhasmsg ≡ false
  pub kind : (k'.proctab pid).is_user_proc ≡ user
  pub stack :
      ((k'.proctab pid).prstkbase ≡ (getstk k.memory (stack_size ssize)).1)
      × ((k'.proctab pid).prstklen ≡ stack_size ssize)
      × (k'.memory ≡ (getstk k.memory (stack_size ssize)).0)
  pub room : (getstk k.memory (stack_size ssize)).1 ≢ syserr
  pub others : (p : ℕ) → p ≢ pid → k'.proctab p ≡ k.proctab p
  pub count : k'.prcount ≡ add32 k.prcount 1
  pub live_suc : live k'.proctab ≡ 1 + live k.proctab

pub live-suc :
    (p q : Table Procent) (pid : ℕ)
    → pid < nproc
    → IsUnused p pid
    → (q pid).prstate ≡ pr_susp
    → ((i : ℕ) → i ≢ pid → q i ≡ p i)
    → live q ≡ 1 + live p
live-suc p q pid lt un st others =
    count_if_suc (λ i. not (state_eq (p i).prstate pr_free))
      (λ i. not (state_eq (q i).prstate pr_free)) pid nproc 0 nproc (omega arith) (omega arith) lt
      (rw un refl) (rw st refl) (λ i d. rw (others i d) refl)

-- The entry and the stack of a new process.
pub filled-Created :
    (k k1 : Kernel) (pid ssize priority saddr initret funcaddr user : ℕ) (name : Table ℕ)
    (args : List ℕ)
    → (k1.proctab ≡ k.proctab)
    → (k1.prcount ≡ k.prcount)
    → (k1.currpid ≡ k.currpid)
    → slt priority 1 ≡ false
    → pid < nproc
    → IsUnused k.proctab pid
    → k1.memory ≡ (getstk k.memory (stack_size ssize)).0
    → saddr ≡ (getstk k.memory (stack_size ssize)).1
    → (saddr == syserr) ≡ false
    → let k3 = fill_entry k1 pid (stack_size ssize) priority saddr name user in
      Created k user pid priority ssize
        (with_stack pid (build_stack k3.vm.mem saddr args initret funcaddr) k3)
unfolding fill_entry
filled-Created k k1 pid ssize priority saddr initret funcaddr user name args ep en ec pos lt un em
      es er =
    let k3 = fill_entry k1 pid (stack_size ssize) priority saddr name user in
    let k4 = with_stack pid (build_stack k3.vm.mem saddr args initret funcaddr) k3 in
    record {
      priority_pos = pos;
      pid_lt = lt;
      unused = un;
      state = ground arith;
      prio = ground arith;
      parent = ground arith;
      message = ground arith;
      kind = ground arith;
      stack = ground arith;
      room = λ z. ground arith;
      others = λ p h. ground arith;
      count = ground arith;
      live_suc = live-suc k.proctab k4.proctab pid lt un (ground arith) (λ i h. ground arith);
    }

-- `newpid` does not return `SYSERR` as an id.
pub Next-id : (p : Table Procent) (nextpid n : ℕ) (r : ℕ × ℕ) → Next p nextpid n r → r.1 < nproc
Next-id p nextpid n r x = omega (arith, x.id)

-- `create` returns `SYSERR` exactly if the priority is not positive, no entry of the process table is
-- unused, or the heap has no room for the stack; then the process table, `prcount` and the
-- page frames are as before. Otherwise it returns the id of an entry that was unused: the process is
-- suspended, with the priority asked for, the caller as its parent, no message, the memory for its
-- stack, and not a user process; no other entry changes, `prcount` is one more, and so is
-- the number of entries in use.
pub create_lem :
    (initret funcaddr ssize priority : ℕ) (name : Table ℕ) (args : List ℕ) (k : Kernel)
    → ((k' : Kernel) × Refused k priority ssize k'
        × (create initret funcaddr ssize priority name args k ≡ done k' syserr))
      ⊎ ((pid : ℕ) × (k' : Kernel) × Created k 0 pid priority ssize k'
          × (create initret funcaddr ssize priority name args k ≡ done k' pid))
unfolding create
create_lem initret funcaddr ssize priority name args k = elim (Bool-cases (slt priority 1)) [
  | inl low ↦
      inl (k, record { why = inl low; proctab = refl; prcount = refl; vm = refl }, rw low refl)
  | inr high ↦ elim (newpid_lem k.proctab k.nextpid) [
    | inr (all, e) ↦
        let k1 : Kernel = record k { nextpid = (newpid k.proctab k.nextpid).0 } in
        inl (
          k1,
          record { why = inr (inl all); proctab = refl; prcount = refl; vm = refl },
          rw (high, e) refl,
        )
    | inl x ↦
        let pid = (newpid k.proctab k.nextpid).1 in
        let lt : pid < nproc = Next-id k.proctab k.nextpid nproc (newpid k.proctab k.nextpid) x in
        let some_pid : (pid == syserr) ≡ false = ground arith in
        let r = getstk k.memory (stack_size ssize) in
        let k1 : Kernel = record k { nextpid = (newpid k.proctab k.nextpid).0; memory = r.0 } in
        elim (Bool-cases (r.1 == syserr)) [
          | inl full ↦ inl (
            k1,
            record { why = inr (inr (ground arith)); proctab = refl; prcount = refl; vm = refl },
            rw (high, some_pid, full) refl,
          )
          | inr room ↦ inr (
            pid,
            _,
            filled-Created k k1 pid ssize priority r.1 initret funcaddr 0 name args refl refl refl
                high lt (rw x.id x.unused) refl refl room,
            rw (high, some_pid, room) refl,
          )
        ]
  ]
]

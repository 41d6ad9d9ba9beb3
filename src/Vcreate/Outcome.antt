-- ===== src/Vcreate/Outcome.antt =====
-- What `vcreate` returns, and the process that it leaves for `add_space`.
use os_demand_paging.FreeList.{getstk}
use os_demand_paging.Create.Pid.{newpid_lem}
use os_demand_paging.Paging.Frames.{max_ffs_size, max_swap_size}
use os_demand_paging.Process.{nullproc, nproc}
use os_demand_paging.Paging.Alloc.{Locals}
use os_demand_paging.Kernel.{Kernel, set_proc, done}
use os_demand_paging.Create.Outcome.{Created, Refused, filled-Created, live-suc, Next-id}
use os_demand_paging.Vcreate.{
  vcreate, add_space, vnewpid, Kernel, Locals, nullproc, max_ffs_size, getstk,
}
use os_demand_paging.Create.{fill_entry, stack_size, build_stack, with_stack, Stack, newpid}
use os_demand_paging.Base.{
  refl, inl, inr, false, ℕ, ◌≡◌, ◌<◌, ◌≢◌, ◌==◌, arith, ◌⊎◌, Table, List, syserr, Bool-cases, slt,
}

abbrev pub sized : ℕ → Kernel → Kernel
sized pid = set_proc pid (λ p. record p { heap_size = max_ffs_size; swap_size = max_swap_size })

sized-Created :
    (k k3 : Kernel) (s : Stack) (user pid priority ssize : ℕ)
    → Created k user pid priority ssize (with_stack pid s k3)
    → Created k user pid priority ssize (with_stack pid s (sized pid k3))
sized-Created k k3 s user pid priority ssize c =
    let k4 = with_stack pid s (sized pid k3) in
    let others : (i : ℕ) → i ≢ pid → k4.proctab i ≡ k.proctab i =
      λ i h. ground (arith, c.others i h) in
    record {
      priority_pos = c.priority_pos;
      pid_lt = c.pid_lt;
      unused = c.unused;
      state = ground (arith, c.state);
      prio = ground (arith, c.prio);
      parent = ground (arith, c.parent);
      message = ground (arith, c.message);
      kind = ground (arith, c.kind);
      stack = ground (arith, c.stack);
      room = c.room;
      others = others;
      count = c.count;
      live_suc =
          live-suc k.proctab k4.proctab pid c.pid_lt c.unused (ground (arith, c.state)) others;
    }

-- The state with the directory of the null process.
abbrev pub at_null : Kernel → Kernel
at_null k = record k { cr3 = (k.proctab nullproc).pdbr }

-- `vcreate` refuses in the same three cases as `create`, and then leaves the process table, `prcount`
-- and the page frames as they are; but the call ends under the directory of the null process, not
-- that of the caller. Otherwise it returns the id of an entry that was unused: a suspended user
-- process with the full counters of heap and swap pages, to which it then gives its page tables and
-- its virtual heap; no other entry has changed, `prcount` is one more, and so is the number of
-- entries in use.
pub vcreate_lem :
    (u : ℕ → Locals) (initret funcaddr ssize priority : ℕ) (name : Table ℕ) (args : List ℕ)
    (k : Kernel)
    → ((k' : Kernel) × Refused k priority ssize k'
        × (k'.cr3 ≡ (k.proctab nullproc).pdbr)
        × (vcreate u initret funcaddr ssize priority name args k ≡ done k' syserr))
      ⊎ ((pid : ℕ) × (k' : Kernel) × Created k 1 pid priority ssize k'
          × ((k'.proctab pid).heap_size ≡ max_ffs_size)
          × ((k'.proctab pid).swap_size ≡ max_swap_size)
          × (k'.vm.ptab ≡ k.vm.ptab)
          × (vcreate u initret funcaddr ssize priority name args k ≡ done (add_space u pid k') pid))
unfolding vcreate
vcreate_lem u initret funcaddr ssize priority name args k0 = elim (Bool-cases (slt priority 1)) [
  | inl low ↦ inl (
    at_null k0,
    record { why = inl low; proctab = refl; prcount = refl; vm = refl },
    refl,
    rw low refl,
  )
  | inr high ↦ elim (newpid_lem k0.proctab k0.vnextpid) [
    | inr (all, e) ↦
        let k1 : Kernel = record (at_null k0) { vnextpid = (vnewpid k0.proctab k0.vnextpid).0 } in
        inl (
          k1,
          record { why = inr (inl all); proctab = refl; prcount = refl; vm = refl },
          refl,
          rw (high, e) refl,
        )
    | inl x ↦
        let pid = (vnewpid k0.proctab k0.vnextpid).1 in
        let lt : pid < nproc =
          Next-id k0.proctab k0.vnextpid nproc (newpid k0.proctab k0.vnextpid) x in
        let some_pid : (pid == syserr) ≡ false = ground arith in
        let r = getstk k0.memory (stack_size ssize) in
        let k1 : Kernel = record (at_null k0) {
          vnextpid = (vnewpid k0.proctab k0.vnextpid).0;
          memory = r.0;
        } in
        elim (Bool-cases (r.1 == syserr)) [
          | inl full ↦ inl (
            k1,
            record { why = inr (inr (ground arith)); proctab = refl; prcount = refl; vm = refl },
            refl,
            rw (high, some_pid, full) refl,
          )
          | inr room ↦
              let k3 = fill_entry k1 pid (stack_size ssize) priority r.1 name 1 in
              let st = build_stack k3.vm.mem r.1 args initret funcaddr in
              let c =
                filled-Created k0 k1 pid ssize priority r.1 initret funcaddr 1 name args refl refl
                  refl high lt (rw x.id x.unused) refl refl room in
              inr (
                pid,
                with_stack pid st (sized pid k3),
                sized-Created k0 k3 st 1 pid priority ssize c,
                ground arith,
                ground arith,
                unfold fill_entry in refl,
                rw (high, some_pid, room) (unfold fill_entry in refl),
              )
        ]
  ]
]

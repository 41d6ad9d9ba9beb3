-- ===== src/Create.antt =====
-- system/create.c, exit.c and userret.c, with the constants of include/kernel.h and process.h. The
-- addresses of the process's function and of `userret`, and the arguments, are words.
pub mod Pid
pub mod Layout
pub mod Outcome
use os_demand_paging.Kill.{kill}
use os_demand_paging.FreeList.{roundmb, getstk}
use os_demand_paging.Paging.Bytes.{store}
use os_demand_paging.Process.{Procent, nproc, pr_susp, state_eq, pr_free, nullproc}
use os_demand_paging.Kernel.{◌>>◌, pure, Code, Kernel, set_proc, done}
use os_demand_paging.Paging.Entry.{Mem}
use os_demand_paging.Base.{
  zero, suc, [], ◌∷◌, List, Table, ℕ, add32, if◌then◌else◌, put, sub32, ltb, slt, syserr, ◌+◌, ◌%◌,
  ◌-◌, ◌==◌, minus_one, false,
}

abbrev pub minstk : ℕ
minstk = 400

abbrev pub stackmagic : ℕ
stackmagic = 0x0a0a_aaa9

abbrev pub pnmlen : ℕ
pnmlen = 16

-- The search of `newpid`, with the rounds left, from `nextpid` on: the next `nextpid`, and the id.
unfoldable pub newpid_loop : ℕ → Table Procent → ℕ → ℕ × ℕ
newpid_loop zero p nextpid = (nextpid, syserr)
newpid_loop (suc n) p nextpid =
    let pid = nextpid % nproc in
    let rest = newpid_loop n p (pid + 1) in
    if state_eq (p pid).prstate pr_free then (pid + 1, pid) else rest

unfoldable pub newpid : Table Procent → ℕ → ℕ × ℕ
newpid p nextpid = newpid_loop nproc p nextpid

-- The name is copied up to its NUL, or to 15 characters; `i` is the position.
unfoldable pub copy_name : ℕ → ℕ → Table ℕ → Table ℕ → Table ℕ
copy_name zero i name t = t
copy_name (suc n) i name t =
    let t' = put t i (name i) in
    let rest = copy_name n (i + 1) name t' in if name i == 0 then t' else rest

-- The stack pointer and memory.
pub record Stack : Type 0 where
  pub sp : ℕ
  pub mem : Mem

-- `*--saddr = v`
abbrev pub push : ℕ → Stack → Stack
push v s = let sp' = sub32 s.sp 4 in record { sp = sp'; mem = store s.mem sp' v }

-- The words from the last on.
unfoldable pub push_list : List ℕ → Stack → Stack
push_list [] s = s
push_list (v ∷ vs) s = push v (push_list vs s)

-- The stack as if the process was called: the arguments, the return address, and what `ctxsw`
-- restores; the saved stack pointer is filled in at the end.
unfoldable pub build_stack : Mem → ℕ → List ℕ → ℕ → ℕ → Stack
build_stack m saddr args initret funcaddr =
    let s0 : Stack = record { sp = saddr; mem = store m saddr stackmagic } in
    let s1 = push saddr (push funcaddr (push initret (push_list args s0))) in
    let s2 = push_list (0 ∷ 0 ∷ 0 ∷ 0 ∷ 0 ∷ 0x200 ∷ []) s1 in
    let s3 = push 0 (push 0 (push s1.sp s2)) in record s3 { mem = store s3.mem s2.sp s3.sp }

-- The fields of the entry of the new process, and its stack. The fields that are not assigned stay.
unfoldable pub fill_entry : Kernel → ℕ → ℕ → ℕ → ℕ → Table ℕ → ℕ → Kernel
fill_entry k pid ssize priority saddr name user =
    let p = k.proctab pid in
    record k {
      prcount = add32 k.prcount 1;
      proctab = put k.proctab pid (record p {
        prstate = pr_susp;
        prprio = priority;
        prstkbase = saddr;
        prstklen = ssize;
        prname = copy_name (pnmlen - 1) 0 name (put p.prname (pnmlen - 1) 0);
        prsem = minus_one;
        prparent = k.currpid;
        prhasmsg = false;
        is_user_proc = user;
        pdbr = (k.proctab nullproc).pdbr;
        prdesc = put (put (put p.prdesc 0 0) 1 0) 2 0;
      });
    }

abbrev pub with_stack : ℕ → Stack → Kernel → Kernel
with_stack pid s k =
    set_proc pid (λ p. record p { prstkptr = s.sp }) (record k { vm = record k.vm { mem = s.mem } })

abbrev pub stack_size : ℕ → ℕ
stack_size ssize = roundmb (if ltb ssize minstk then minstk else ssize)

unfoldable pub create : ℕ → ℕ → ℕ → ℕ → Table ℕ → List ℕ → Code ℕ
create initret funcaddr ssize0 priority name args k =
    let ssize = stack_size ssize0 in
    if slt priority 1
    then done k syserr
    else (let (next, pid) = newpid k.proctab k.nextpid in
        let k1 : Kernel = record k { nextpid = next } in
        if pid == syserr
        then done k1 syserr
        else (let (memory, saddr) = getstk k1.memory ssize in
            let k2 : Kernel = record k1 { memory = memory } in
            if saddr == syserr
            then done k2 syserr
            else (let k3 = fill_entry k2 pid ssize priority saddr name 0 in
                done (with_stack pid (build_stack k3.vm.mem saddr args initret funcaddr) k3) pid)))

unfoldable pub exit : Code (Unit {0})
exit k = (do kill k.currpid; pure tt) k

unfoldable pub userret : Code (Unit {0})
userret k = (do kill k.currpid; pure tt) k

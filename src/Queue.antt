-- ===== src/Queue.antt =====
-- The queue table: include/queue.h, system/queue.c, newqueue.c, getitem.c, insert.c, insertd.c.
-- A queue is a doubly linked list in `queuetab` between its head and its tail node; entries below
-- `nproc` are processes. An index or a key is a 32-bit pattern, -1 for EMPTY.
pub mod Chain
pub mod Link
pub mod Refine
pub mod Order
pub mod Insert
pub mod Others
pub mod Frame
pub mod Delta
pub mod Due
pub mod Slept
use os_demand_paging.Base.{
  ℕ, zero, suc, ◌+◌, ◌-◌, Bool, true, false, ◌&&◌, ◌||◌, Table, put, add32, sub32, slt, sle,
  minus_one, syserr, ok, ◌!=◌, if◌then◌else◌,
}
use os_demand_paging.Process.{nproc, nsem, Procent, isbadpid}

abbrev pub nqent : ℕ
nqent = nproc + 4 + nsem + nsem

abbrev pub empty : ℕ
empty = minus_one

abbrev pub maxkey : ℕ
maxkey = 0x7fff_ffff

abbrev pub minkey : ℕ
minkey = 0x8000_0000

pub record Qentry : Type 0 where
  pub qkey : ℕ
  pub qnext : ℕ
  pub qprev : ℕ

abbrev pub Queuetab : Type 0
Queuetab = Table Qentry

abbrev pub queuetail : ℕ → ℕ
queuetail q = q + 1

abbrev pub firstid : Queuetab → ℕ → ℕ
firstid t q = (t q).qnext

abbrev pub firstkey : Queuetab → ℕ → ℕ
firstkey t q = (t (firstid t q)).qkey

abbrev pub isempty : Queuetab → ℕ → Bool
isempty t q = sle nproc (firstid t q)

abbrev pub isbadqid : ℕ → Bool
isbadqid q = slt q nproc || sle (nqent - 1) q

-- Writes to one field of an entry.
abbrev pub set_next : Queuetab → ℕ → ℕ → Queuetab
set_next t i v = put t i (record (t i) { qnext = v })

abbrev pub set_prev : Queuetab → ℕ → ℕ → Queuetab
set_prev t i v = put t i (record (t i) { qprev = v })

abbrev pub set_key : Queuetab → ℕ → ℕ → Queuetab
set_key t i v = put t i (record (t i) { qkey = v })

-- The four writes that put `pid` between the nodes `prev` and `next`.
unfoldable pub link : Queuetab → ℕ → ℕ → ℕ → Queuetab
link t pid prev next =
    set_prev (set_next (set_prev (set_next t pid next) pid prev) prev pid) next pid

unfoldable pub enqueue : Table Procent → Queuetab → ℕ → ℕ → Queuetab × ℕ
enqueue p t pid q =
    if isbadqid q || isbadpid p pid
    then (t, syserr)
    else (link t pid (t (queuetail q)).qprev (queuetail q), pid)

unfoldable pub getitem : Queuetab → ℕ → Queuetab × ℕ
getitem t pid =
    let next = (t pid).qnext in
    let prev = (t pid).qprev in (set_prev (set_next t prev next) next prev, pid)

unfoldable pub getfirst : Queuetab → ℕ → Queuetab × ℕ
getfirst t q = if isempty t q then (t, empty) else getitem t (t q).qnext

unfoldable pub getlast : Queuetab → ℕ → Queuetab × ℕ
getlast t q = if isempty t q then (t, empty) else getitem t (t (queuetail q)).qprev

unfoldable pub dequeue : Queuetab → ℕ → Queuetab × ℕ
dequeue t q =
    if isbadqid q
    then (t, syserr)
    else (if isempty t q
        then (t, empty)
        else (let (t', pid) = getfirst t q in (set_next (set_prev t' pid empty) pid empty, pid)))

-- `nextqid` is a static variable of `newqueue`.
unfoldable pub newqueue : Queuetab → ℕ → Queuetab × ℕ × ℕ
newqueue t nextqid = if sle nqent nextqid then (t, nextqid, syserr) else (
  put (put t nextqid (record { qkey = maxkey; qnext = queuetail nextqid; qprev = empty }))
      (queuetail nextqid) (record { qkey = minkey; qnext = empty; qprev = nextqid }),
  add32 nextqid 2,
  nextqid,
)

-- `while (queuetab[curr].qkey >= key) curr = queuetab[curr].qnext;` A queue has at most `nproc`
-- processes, so `nqent` rounds are enough.
unfoldable pub insert_walk : Queuetab → ℕ → ℕ → ℕ → ℕ
insert_walk t key zero curr = curr
insert_walk t key (suc fuel) curr = elim (sle key (t curr).qkey) [
  | true ↦ insert_walk t key fuel (t curr).qnext
  | false ↦ curr
]

unfoldable pub insert : Table Procent → Queuetab → ℕ → ℕ → ℕ → Queuetab × ℕ
insert p t pid q key =
    if isbadqid q || isbadpid p pid
    then (t, syserr)
    else (let curr = insert_walk t key nqent (firstid t q) in
        let prev = (t curr).qprev in (set_key (link t pid prev curr) pid key, ok))

-- The delta list: each key is the delay after the process before it. `key` is what is left of
-- the delay when the walk stands between `prev` and `next`.
pub record Walk : Type 0 where
  pub key : ℕ
  pub prev : ℕ
  pub next : ℕ

unfoldable pub insertd_walk : Queuetab → ℕ → ℕ → Walk → Walk
insertd_walk t q zero w = w
insertd_walk t q (suc fuel) w = elim (w.next != queuetail q && sle (t w.next).qkey w.key) [
  | true ↦
      insertd_walk t q fuel
        (record { key = sub32 w.key (t w.next).qkey; prev = w.next; next = (t w.next).qnext })
  | false ↦ w
]

unfoldable pub insertd : Table Procent → Queuetab → ℕ → ℕ → ℕ → Queuetab × ℕ
insertd p t pid q key =
    if isbadqid q || isbadpid p pid
    then (t, syserr)
    else (let w = insertd_walk t q nqent (record { key = key; prev = q; next = (t q).qnext }) in
        let t' = set_key (link t pid w.prev w.next) pid w.key in
        (
          if w.next != queuetail q then set_key t' w.next (sub32 (t' w.next).qkey w.key) else t',
          ok,
        ))

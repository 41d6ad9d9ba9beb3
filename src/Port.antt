-- ===== src/Port.antt =====
-- Ports: include/ports.h, system/ptinit.c, ptcreate.c, ptsend.c, ptrecv.c, ptreset.c, ptdelete.c,
-- ptclear.c and ptcount.c. A node of a list of messages has the message in its first word and the
-- address of the next node in its second.
pub mod Nodes
pub mod Fifo
pub mod Order
use os_demand_paging.Paging.Entry.{Mem}
use os_demand_paging.Paging.Bytes.{load, store}
use os_demand_paging.Kernel.{Kernel, Code, Ptentry, done, halt, ◌>>=◌, ◌>>◌, pure, modify}
use os_demand_paging.FreeList.{getmem}
use os_demand_paging.Semaphore.{semcreate, semdelete, semreset, semcount, wait, signal}
use os_demand_paging.Base.{
  zero, suc, true, false, if◌then◌else◌, ◌-◌, ℕ, ◌&&◌, ◌==◌, ◌||◌, Bool, Table, add32, mul32, not,
  put, slt, syserr, ok, sle, sweep, ◌!=◌, ◌%◌, sub32, ◌^◌,
}

abbrev pub nports : ℕ
nports = 30

abbrev pub pt_msgs : ℕ
pt_msgs = 100

abbrev pub pt_free : ℕ
pt_free = 1

abbrev pub pt_limbo : ℕ
pt_limbo = 2

abbrev pub pt_alloc : ℕ
pt_alloc = 3

abbrev pub isbadport : ℕ → Bool
isbadport portid = slt portid 0 || sle nports portid

-- A port that may be used.
abbrev pub port_open : Kernel → ℕ → Bool
port_open k portid = not (isbadport portid) && (k.porttab portid).ptstate == pt_alloc

abbrev pub set_port : ℕ → (Ptentry → Ptentry) → Kernel → Kernel
set_port portid f k = record k { porttab = put k.porttab portid (f (k.porttab portid)) }

abbrev pub set_mem : (Mem → Mem) → Kernel → Kernel
set_mem f k = record k { vm = record k.vm { mem = f k.vm.mem } }

-- `curr->ptnext = ++next`, with the rounds left; the last node ends the list.
unfoldable pub link_nodes : ℕ → ℕ → Mem → Mem
link_nodes zero curr m = store m (add32 curr 4) 0
link_nodes (suc n) curr m = link_nodes n (add32 curr 8) (store m (add32 curr 4) (add32 curr 8))

unfoldable pub ptinit : ℕ → Code ℕ
ptinit maxmsgs k =
    let (memory, a) = getmem k.memory (mul32 maxmsgs 8) in
    let k' : Kernel = record k { memory = memory; ptfree = a } in
    if a == syserr
    then halt k'
    else (let ports = sweep nports 0 (λ i e. record e { ptstate = pt_free; ptseq = 0 }) k.porttab in
        done
          (set_mem (link_nodes (if slt 1 maxmsgs then maxmsgs - 1 else 0) a)
            (record k' { porttab = ports; ptnextid = 0 }))
          ok)

-- The search of `ptcreate`, with the rounds left: the next `ptnextid`, and the port.
unfoldable pub port_search : ℕ → Table Ptentry → ℕ → ℕ × ℕ
port_search zero t ptnextid = (ptnextid, syserr)
port_search (suc n) t ptnextid =
    let next = if sle nports (add32 ptnextid 1) then 0 else add32 ptnextid 1 in
    let rest = port_search n t next in
    if (t ptnextid).ptstate == pt_free then (next, ptnextid) else rest

unfoldable pub ptcreate : ℕ → Code ℕ
ptcreate count k =
    if slt count 0
    then done k syserr
    else (let (next, portid) = port_search nports k.porttab k.ptnextid in
        let k1 : Kernel = record k { ptnextid = next } in
        if portid == syserr
        then done k1 syserr
        else (semcreate count >>= λ ssem. semcreate 0 >>= λ rsem k'.
              done
                (set_port portid
                  (λ e. record e {
                    ptssem = ssem;
                    ptrsem = rsem;
                    pthead = 0;
                    pttail = 0;
                    ptseq = add32 e.ptseq 1;
                    ptmaxcnt = count % 2 ^ 16;
                  })
                  k')
                portid)
            (set_port portid (λ e. record e { ptstate = pt_alloc }) k1))

-- The port is not the one that it was before the wait.
abbrev pub port_lost : ℕ → ℕ → ℕ → Kernel → Bool
port_lost portid seq r k =
    r == syserr || (k.porttab portid).ptstate != pt_alloc || (k.porttab portid).ptseq != seq

-- A node from the free list goes to the tail of the port's list.
unfoldable pub put_message : ℕ → ℕ → Kernel → Kernel
put_message portid msg k =
    let node = k.ptfree in
    let k1 : Kernel = record k { ptfree = load k.vm.mem (add32 node 4) } in
    let k2 = set_mem (λ m. store (store m (add32 node 4) 0) node msg) k1 in
    let tail = (k2.porttab portid).pttail in
    if tail == 0
    then set_port portid (λ e. record e { pttail = node; pthead = node }) k2
    else set_port portid (λ e. record e { pttail = node })
        (set_mem (λ m. store m (add32 tail 4) node) k2)

-- What `ptsend` does after its wait.
unfoldable pub deliver_to : ℕ → ℕ → ℕ → ℕ → Code ℕ
deliver_to portid msg seq r k =
    if port_lost portid seq r k
    then done k syserr
    else (if k.ptfree == 0
        then halt k
        else (let k' = put_message portid msg k in
            (signal (k'.porttab portid).ptrsem >> pure ok) k'))

unfoldable pub ptsend : ℕ → ℕ → Code ℕ
ptsend portid msg k =
    if not (port_open k portid)
    then done k syserr
    else (let e = k.porttab portid in (wait e.ptssem >>= deliver_to portid msg e.ptseq) k)

-- The first node goes back to the free list.
unfoldable pub drop_message : ℕ → Kernel → Kernel
drop_message portid k =
    let e = k.porttab portid in
    let node = e.pthead in
    let k1 =
      if e.pthead == e.pttail
      then set_port portid (λ e. record e { pthead = 0; pttail = 0 }) k
      else set_port portid (λ e. record e { pthead = load k.vm.mem (add32 node 4) }) k in
    record (set_mem (λ m. store m (add32 node 4) k.ptfree) k1) { ptfree = node }

-- What `ptrecv` does after its wait.
unfoldable pub fetch_from : ℕ → ℕ → ℕ → Code ℕ
fetch_from portid seq r k =
    if port_lost portid seq r k
    then done k syserr
    else (let msg = load k.vm.mem (k.porttab portid).pthead in
        let k' = drop_message portid k in (signal (k'.porttab portid).ptssem >> pure msg) k')

unfoldable pub ptrecv : ℕ → Code ℕ
ptrecv portid k =
    if not (port_open k portid)
    then done k syserr
    else (let e = k.porttab portid in (wait e.ptrsem >>= fetch_from portid e.ptseq) k)

-- The messages from the node `walk` on are handed to the caller's function. A list has no more
-- nodes than there are messages in the system.
unfoldable pub dispose_all : (ℕ → Code (Unit {0})) → ℕ → ℕ → Code (Unit {0})
dispose_all dispose zero walk k = done k tt
dispose_all dispose (suc n) walk k = elim (walk == 0) [
  | true ↦ done k tt
  | false ↦
      (dispose (load k.vm.mem walk) >>= λ _ k'.
      dispose_all dispose n (load k'.vm.mem (add32 walk 4)) k')
        k
]

-- The messages of a port go to the free list, once they have been handed over.
unfoldable pub free_messages : (ℕ → Code (Unit {0})) → ℕ → Code (Unit {0})
free_messages dispose portid k =
    if (k.porttab portid).pthead == 0
    then done k tt
    else (do
      dispose_all dispose pt_msgs (k.porttab portid).pthead
      modify λ k'.
          let e = k'.porttab portid in
          record (set_mem (λ m. store m (add32 e.pttail 4) k'.ptfree) k') { ptfree = e.pthead })
        k

-- The semaphores are reset, or deleted.
unfoldable pub reset_semaphores : ℕ → Code (Unit {0})
reset_semaphores portid k =
    let e = k.porttab portid in
    (semreset e.ptssem e.ptmaxcnt >>= λ _ k'. (semreset (k'.porttab portid).ptrsem 0 >> pure tt) k')
      k

unfoldable pub delete_semaphores : ℕ → Code (Unit {0})
delete_semaphores portid k =
    (semdelete (k.porttab portid).ptssem >>= λ _ k'.
    (semdelete (k'.porttab portid).ptrsem >> pure tt) k')
      k

unfoldable pub close_port : ℕ → ℕ → Code (Unit {0})
close_port portid newstate k =
    if newstate == pt_alloc
    then reset_semaphores portid (set_port portid (λ e. record e { pttail = 0; pthead = 0 }) k)
    else delete_semaphores portid k

unfoldable pub ptclear : (ℕ → Code (Unit {0})) → ℕ → ℕ → Code (Unit {0})
ptclear dispose portid newstate = do
  modify (set_port portid (λ e. record e { ptstate = pt_limbo; ptseq = add32 e.ptseq 1 }))
  free_messages dispose portid
  close_port portid newstate
  modify (set_port portid (λ e. record e { ptstate = newstate }))

unfoldable pub ptreset : (ℕ → Code (Unit {0})) → ℕ → Code ℕ
ptreset disp portid k =
    if not (port_open k portid) then done k syserr else (do ptclear disp portid pt_alloc; pure ok) k

unfoldable pub ptdelete : (ℕ → Code (Unit {0})) → ℕ → Code ℕ
ptdelete disp portid k =
    if not (port_open k portid)
    then done k syserr
    else (do ptclear disp portid pt_free; modify (λ k'. record k' { ptnextid = portid }); pure ok) k

-- A message that a blocked sender has waits too.
unfoldable pub ptcount : ℕ → Code ℕ
ptcount portid k =
    if not (port_open k portid)
    then done k syserr
    else (semcount (k.porttab portid).ptrsem >>= λ count k'.
          if sle 0 count
          then (semcount (k'.porttab portid).ptssem >>= λ sndcnt k''.
                done k'' (if slt sndcnt 0 then add32 count (sub32 0 sndcnt) else count))
              k'
          else done k' count)
        k

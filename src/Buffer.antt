-- ===== src/Buffer.antt =====
-- Buffer pools: include/bufpool.h, system/bufinit.c, mkbufpool.c, getbuf.c and freebuf.c. The first
-- word of a free buffer leads to the next one, and that of a buffer in use is the id of its pool.
pub mod Links
pub mod Pool
use os_demand_paging.Paging.Entry.{Mem}
use os_demand_paging.Paging.Bytes.{load, store}
use os_demand_paging.Kernel.{Kernel, Code, done, Bpentry, ◌>>=◌, ◌>>◌, pure}
use os_demand_paging.FreeList.{getmem, freemem}
use os_demand_paging.Semaphore.{semcreate, wait, signal}
use os_demand_paging.Base.{
  zero, suc, if◌then◌else◌, ◌-◌, ℕ, ◌*◌, ◌/◌, ◌==◌, ◌||◌, Bool, add32, ok, put, slt, sub32, syserr,
  mul32, sle,
}

abbrev pub max_pools : ℕ
max_pools = 20

abbrev pub bp_minb : ℕ
bp_minb = 8

abbrev pub bp_maxb : ℕ
bp_maxb = 8192

abbrev pub bp_maxn : ℕ
bp_maxn = 2048

abbrev pub set_pool : ℕ → (Bpentry → Bpentry) → Kernel → Kernel
set_pool poolid f k = record k { buftab = put k.buftab poolid (f (k.buftab poolid)) }

unfoldable pub bufinit : Code ℕ
bufinit k = done (record k { nbpools = 0 }) ok

-- The loop over the buffers but the last, which ends the list.
unfoldable pub link_buffers : ℕ → ℕ → ℕ → Mem → Mem
link_buffers zero buf bufsiz m = store m buf 0
link_buffers (suc n) buf bufsiz m =
    link_buffers n (add32 buf bufsiz) bufsiz (store m buf (add32 buf bufsiz))

-- The arguments that are refused.
abbrev pub bad_pool : ℕ → ℕ → ℕ → Bool
bad_pool bufsiz numbufs nbpools =
    slt bufsiz bp_minb
    || slt bp_maxb bufsiz
    || slt numbufs 1
    || slt bp_maxn numbufs
    || sle max_pools nbpools

-- What follows the allocation of `nbytes` bytes at `buf`.
unfoldable pub make_pool : ℕ → ℕ → ℕ → ℕ → Code ℕ
make_pool buf nbytes bufsiz numbufs k0 =
    let poolid = k0.nbpools in
    let k : Kernel =
      set_pool poolid (λ b. record b { bpnext = buf; bpsize = bufsiz })
        (record k0 { nbpools = add32 poolid 1 }) in
    (semcreate numbufs >>= λ sem k'.
    let k1 = set_pool poolid (λ b. record b { bpsem = sem }) k' in
    if sem == syserr
    then done
        (record k1 { memory = (freemem k1.memory buf nbytes).0; nbpools = sub32 k1.nbpools 1 })
        syserr
    else done
        (record k1 {
          vm = record k1.vm { mem = link_buffers (numbufs - 1) buf (add32 bufsiz 4) k1.vm.mem };
        })
        poolid)
      k

unfoldable pub mkbufpool : ℕ → ℕ → Code ℕ
mkbufpool bufsiz0 numbufs k =
    if bad_pool bufsiz0 numbufs k.nbpools
    then done k syserr
    else (let bufsiz = add32 bufsiz0 3 / 4 * 4 in
        let nbytes = mul32 numbufs (add32 bufsiz 4) in
        let (memory, buf) = getmem k.memory nbytes in
        let k' : Kernel = record k { memory = memory } in
        if buf == syserr then done k' syserr else make_pool buf nbytes bufsiz numbufs k')

-- The first free buffer is unlinked and marked with the id of its pool.
unfoldable pub take_buffer : ℕ → Code ℕ
take_buffer poolid k =
    let buf = (k.buftab poolid).bpnext in
    let k' = set_pool poolid (λ b. record b { bpnext = load k.vm.mem buf }) k in
    done (record k' { vm = record k'.vm { mem = store k'.vm.mem buf poolid } }) (add32 buf 4)

unfoldable pub getbuf : ℕ → Code ℕ
getbuf poolid k =
    if slt poolid 0 || sle k.nbpools poolid
    then done k syserr
    else (wait (k.buftab poolid).bpsem >> take_buffer poolid) k

unfoldable pub freebuf : ℕ → Code ℕ
freebuf bufaddr k =
    let buf = sub32 bufaddr 4 in
    let poolid = load k.vm.mem buf in
    if slt poolid 0 || sle k.nbpools poolid
    then done k syserr
    else (let m = store k.vm.mem buf (k.buftab poolid).bpnext in
        let k' =
          set_pool poolid (λ b. record b { bpnext = buf })
            (record k { vm = record k.vm { mem = m } }) in
        (signal (k'.buftab poolid).bpsem >> pure ok) k')

-- ===== src/Buffer/Pool.antt =====
-- A buffer that is taken from a pool and given back.
use os_demand_paging.Kernel.{Kernel, done}
use mathlib.Core.Path.{subst}
use os_demand_paging.Buffer.{getbuf, freebuf, take_buffer, Kernel, max_pools, done, set_pool, load}
use os_demand_paging.Semaphore.{wait, signal, release_one, is_open, set_sem}
use os_demand_paging.Paging.Bytes.{load-aligned, store-aligned, load}
use os_demand_paging.Base.{
  refl, true, false, ◌-◌, ℕ, ◌≡◌, ◌+◌, ◌<◌, ◌/◌, arith, ◌≤◌, ◌∙◌, ◌||◌, ◌%◌, ◌^◌, add32, ok, slt,
  sub32, ==_refl, put, sle,
}

-- A semaphore with another count.
abbrev counted : ℕ → ℕ → Kernel → Kernel
counted sem n = set_sem sem (λ s. record s { scount = n })

wait_free :
    (k : Kernel) (sem : ℕ)
    → is_open k sem ≡ true
    → 0 < (k.semtab sem).scount
    → (k.semtab sem).scount < 2 ^ 31
    → wait sem k ≡ done (counted sem ((k.semtab sem).scount - 1) k) ok
unfolding wait
wait_free k sem opened pos small =
    let less : sub32 (k.semtab sem).scount 1 ≡ (k.semtab sem).scount - 1 = omega arith in
    let idle : slt ((k.semtab sem).scount - 1) 0 ≡ false = ground arith in
    rw (opened, less, ==_refl sem, idle) refl

signal_free :
    (k : Kernel) (sem n : ℕ)
    → is_open k sem ≡ true
    → (k.semtab sem).scount + 1 ≡ n
    → n < 2 ^ 31
    → signal sem k ≡ done (counted sem n k) ok
unfolding signal release_one
signal_free k sem n opened e small =
    let more : add32 (k.semtab sem).scount 1 ≡ n = omega arith in
    let idle : slt (k.semtab sem).scount 0 ≡ false = ground arith in rw (opened, more, idle) refl

-- The buffer `b` at the head of a pool is unlinked; and a buffer is linked in front of `next`.
abbrev taken : ℕ → ℕ → Kernel → Kernel
taken poolid b k = record (set_pool poolid (λ e. record e { bpnext = k.vm.mem (b / 4) }) k) {
  vm = record k.vm { mem = put k.vm.mem (b / 4) poolid };
}

abbrev put_back : ℕ → ℕ → ℕ → Kernel → Kernel
put_back poolid b next k =
    set_pool poolid (λ e. record e { bpnext = b })
      (record k { vm = record k.vm { mem = put k.vm.mem (b / 4) next } })

getbuf-taken :
    (k : Kernel) (poolid b : ℕ)
    → poolid < k.nbpools
    → k.nbpools ≤ max_pools
    → (k.buftab poolid).bpnext ≡ b
    → b % 4 ≡ 0
    → b + 4 < 2 ^ 32
    → is_open k (k.buftab poolid).bpsem ≡ true
    → 0 < (k.semtab (k.buftab poolid).bpsem).scount
    → (k.semtab (k.buftab poolid).bpsem).scount < 2 ^ 31
    → getbuf poolid k
      ≡ done
          (taken poolid b
            (counted (k.buftab poolid).bpsem ((k.semtab (k.buftab poolid).bpsem).scount - 1) k))
          (b + 4)
unfolding getbuf take_buffer
getbuf-taken k poolid b lt few head al fits opened pos small =
    let good : (slt poolid 0 || sle k.nbpools poolid) ≡ false = ground arith in
    let w = wait_free k (k.buftab poolid).bpsem opened pos small in
    let read = load-aligned k.vm.mem b al in
    let write = store-aligned k.vm.mem b poolid al in
    let behind : add32 b 4 ≡ b + 4 = omega arith in rw (good, w, head, read, write, behind) refl

freebuf-put_back :
    (k : Kernel) (poolid b n : ℕ)
    → poolid < k.nbpools
    → k.nbpools ≤ max_pools
    → b % 4 ≡ 0
    → b + 4 < 2 ^ 32
    → k.vm.mem (b / 4) ≡ poolid
    → is_open k (k.buftab poolid).bpsem ≡ true
    → (k.semtab (k.buftab poolid).bpsem).scount + 1 ≡ n
    → n < 2 ^ 31
    → freebuf (b + 4) k
      ≡ done (counted (k.buftab poolid).bpsem n (put_back poolid b (k.buftab poolid).bpnext k)) ok
unfolding freebuf
freebuf-put_back k poolid b n lt few al fits marked opened e small =
    let at : sub32 (b + 4) 4 ≡ b = omega arith in
    let read : load k.vm.mem b ≡ poolid = load-aligned k.vm.mem b al ∙ marked in
    let good : (slt poolid 0 || sle k.nbpools poolid) ≡ false = ground arith in
    let write = store-aligned k.vm.mem b (k.buftab poolid).bpnext al in
    let s =
      signal_free (put_back poolid b (k.buftab poolid).bpnext k) (k.buftab poolid).bpsem n opened e
        small in
    rw (at, read, good, write, ==_refl poolid, s) refl

-- A buffer that is taken from a pool and given back.
pub record GivenBack (k : Kernel) (poolid b : ℕ) (k1 k2 : Kernel) : Type 0 where
  pub next : (k1.buftab poolid).bpnext ≡ k.vm.mem (b / 4)
  pub count :
      (k1.semtab (k.buftab poolid).bpsem).scount + 1 ≡ (k.semtab (k.buftab poolid).bpsem).scount
  pub marked : k1.vm.mem (b / 4) ≡ poolid
  pub mem : (w : ℕ) → k2.vm.mem w ≡ k.vm.mem w
  pub buftab : (i : ℕ) → k2.buftab i ≡ k.buftab i
  pub semtab : (i : ℕ) → k2.semtab i ≡ k.semtab i
  pub rest : (k2.proctab ≡ k.proctab) × (k2.queuetab ≡ k.queuetab) × (k2.memory ≡ k.memory)

-- While a pool has a free buffer and its semaphore counts one, `getbuf` returns at once, with the address
-- behind the first word of the first free buffer; the pool then begins with the next one, and counts one
-- less. `freebuf` of that address succeeds, and then memory, the pools and the semaphores are as they
-- were before.
pub getbuf-freebuf :
    (k : Kernel) (poolid b : ℕ)
    → poolid < k.nbpools
    → k.nbpools ≤ max_pools
    → (k.buftab poolid).bpnext ≡ b
    → b % 4 ≡ 0
    → b + 4 < 2 ^ 32
    → is_open k (k.buftab poolid).bpsem ≡ true
    → 0 < (k.semtab (k.buftab poolid).bpsem).scount
    → (k.semtab (k.buftab poolid).bpsem).scount < 2 ^ 31
    → (k1 : Kernel) × (k2 : Kernel) × GivenBack k poolid b k1 k2
      × (getbuf poolid k ≡ done k1 (b + 4))
      × (freebuf (b + 4) k1 ≡ done k2 ok)
getbuf-freebuf k poolid b lt few head al fits opened pos small =
    let sem = (k.buftab poolid).bpsem in
    let n = (k.semtab sem).scount in
    let k0 = counted sem (n - 1) k in
    let k1 = taken poolid b k0 in
    let k2 = counted sem n (put_back poolid b (k1.buftab poolid).bpnext k1) in
    let same : (k1.buftab poolid).bpsem ≡ sem = ground arith in
    let still : is_open k1 (k1.buftab poolid).bpsem ≡ true = ground (arith, opened) in
    (
      k1,
      k2,
      record {
        next = ground arith;
        count = ground arith;
        marked = ground arith;
        mem = λ w. ground arith;
        buftab = λ i. ground (arith, head);
        semtab = λ i. ground arith;
        rest = (refl, refl, refl);
      },
      getbuf-taken k poolid b lt few head al fits opened pos small,
      subst
          (λ z.
            freebuf (b + 4) k1
            ≡ done (counted z n (put_back poolid b (k1.buftab poolid).bpnext k1)) ok)
          same
          (freebuf-put_back k1 poolid b n lt few al fits (ground arith) still (ground arith) small),
    )

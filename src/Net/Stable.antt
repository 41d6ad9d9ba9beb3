-- ===== src/Net/Stable.antt =====
-- What the code of net/arp.c keeps of the ARP cache, whatever processes run while it waits.
use os_demand_paging.Net.Packet.{Net, Mac, Arppacket}
use os_demand_paging.Net.Arp.{
  arp_siz, ar_free, ar_pending, ar_resolved, has_addr, arp_find, clear_entry, arp_timeout,
  arp_retry, arp_resolve, ask, await_reply, end_resolve, arp_in, handle_op, add_sender, answer,
  note_sender, arp_ntoh,
}
use os_demand_paging.Net.Unique.{
  IsCache, put-IsCache, clear-IsCache, take-IsCache, absent, arp_alloc-cases,
}
use os_demand_paging.Net.Quiet.{freebuf-Keeps, send-Keeps, recvclr-Keeps, recvtime-Keeps}
use os_demand_paging.Message.{timeout}
use os_demand_paging.Kernel.{Kernel, Code}
use os_demand_paging.Kernel.Keeps.{Keeps, and_then-Keeps, if-Keeps, ended}
use os_demand_paging.Base.{
  ℕ, zero, suc, ◌<◌, ◌≡◌, ◌≢◌, inl, inr, true, false, ◌&&◌, ◌==◌, ltb, put, arith, refl, first_lem,
  Bool-cases, ok,
}

abbrev pub Cached : Kernel → Type 0
Cached k = IsCache k.net.arpcache

abbrev OnCache : Net → Type 0
OnCache n = IsCache n.arpcache

module _ (write : Arppacket → Code ℕ)
    (driver : (p : Arppacket) (k : Kernel) → Cached k → Keeps Cached (write p k)) where
  await_reply-Keeps :
      (n : ℕ) (p : Arppacket) (msg : ℕ) (k : Kernel)
      → Cached k
      → Keeps Cached (await_reply write n p msg k)
  unfolding await_reply
  await_reply-Keeps zero p msg k h = ended k msg h
  await_reply-Keeps (suc n) p msg k h = and_then-Keeps (driver p k h) (λ a k1 h1.
      and_then-Keeps (recvtime-Keeps OnCache arp_timeout k1 h1) (λ msg' k2 h2.
        elim (Bool-cases (msg' == timeout)) [
          | inl late ↦ rw late (await_reply-Keeps n p msg' k2 h2)
          | inr now ↦ rw now (ended k2 msg' h2)
        ]))

  end_resolve-Keeps :
      (slot : ℕ) (mac : Mac) (msg : ℕ) (k : Kernel)
      → Cached k
      → Keeps Cached (end_resolve slot mac msg k)
  unfolding end_resolve
  end_resolve-Keeps slot mac msg k h =
      let freed =
        put-IsCache k.net.arpcache slot (record (k.net.arpcache slot) { arstate = ar_free }) h
          (omega arith) (λ j lj off fj fe. absurd (fe refl)) in
      search (if-Keeps, ended)

  ask-Keeps :
      (k : Kernel) (slot nxthop : ℕ) (mac : Mac)
      → Cached k
      → ((j : ℕ) → j < arp_siz → has_addr nxthop (k.net.arpcache j) ≡ false)
      → Keeps Cached (ask write slot nxthop mac (clear_entry slot k))
  unfolding ask
  ask-Keeps k slot nxthop mac h none_has =
      and_then-Keeps (recvclr-Keeps OnCache _ (take-IsCache k slot _ h (omega arith) none_has))
        (λ a k1 h1.
          and_then-Keeps (await_reply-Keeps arp_retry _ 0 k1 h1) (end_resolve-Keeps slot mac))

  arp_resolve-Keeps :
      (nxthop : ℕ) (mac : Mac) (k : Kernel)
      → Cached k
      → Keeps Cached (arp_resolve write nxthop mac k)
  unfolding arp_resolve
  arp_resolve-Keeps nxthop mac k h =
      let i = arp_find k.net.arpcache nxthop in
      let e = k.net.arpcache i in
      elim (Bool-cases (ltb i arp_siz && (e.arstate == ar_resolved))) [
        | inl hit ↦ rw hit (search (if-Keeps, ended))
        | inr miss ↦ elim (Bool-cases (ltb i arp_siz && (e.arstate == ar_pending))) [
          | inl busy ↦ rw (miss, busy) (search (if-Keeps, ended))
          | inr idle ↦ elim (arp_alloc-cases k) [
            | inl (slot, small, eq) ↦
                let asked =
                  ask-Keeps k slot nxthop mac h (absent k.net.arpcache nxthop h miss idle) in
                rw (miss, idle, eq) (search (if-Keeps, ended, clear-IsCache))
            | inr eq ↦ rw (miss, idle, eq) (search (if-Keeps, ended))
          ]
        ]
      ]

  note_sender-Keeps :
      (slot : ℕ) (sndha : Mac) (k : Kernel)
      → Cached k
      → slot < arp_siz
      → (k.net.arpcache slot).arstate ≢ ar_free
      → Keeps Cached (note_sender slot sndha k)
  unfolding note_sender
  note_sender-Keeps slot sndha k h small used =
      let c = k.net.arpcache in
      let e = record (c slot) { arhaddr = sndha } in
      let alone : (j : ℕ)
          → j < arp_siz
          → j ≢ slot
          → (c j).arstate ≢ ar_free
          → (c j).arpaddr ≢ (c slot).arpaddr =
        λ j lj off fj same. off (h.unique j slot lj small fj used same) in
      let kept = put-IsCache c slot e h (h.states slot) (λ j lj off fj fe. alone j lj off fj) in
      let known =
        put-IsCache (put c slot e) slot (record (put c slot e slot) { arstate = ar_resolved }) kept
          (omega arith) (λ j lj off fj fe. ground (arith, alone j lj off)) in
      if-Keeps _
        (and_then-Keeps (send-Keeps OnCache (c slot).arpid ok _ known) (λ a k' h'. ended k' tt h'))
        (ended _ tt kept)

  answer-Keeps :
      (pktptr : ℕ) (p : Arppacket) (k : Kernel) → Cached k → Keeps Cached (answer write pktptr p k)
  unfolding answer
  answer-Keeps pktptr p k h = search (ended, and_then-Keeps, driver, freebuf-Keeps OnCache)

  add_sender-Keeps :
      (pktptr : ℕ) (p : Arppacket) (k : Kernel)
      → Cached k
      → ((j : ℕ) → j < arp_siz → has_addr p.arp_sndpa (k.net.arpcache j) ≡ false)
      → Keeps Cached (add_sender write pktptr p k)
  unfolding add_sender
  add_sender-Keeps pktptr p k h none_has = elim (arp_alloc-cases k) [
    | inl (slot, small, eq) ↦
        let taken = take-IsCache k slot _ h (omega arith) none_has in
        let given = answer-Keeps pktptr p _ taken in
        rw eq (
          if-Keeps _
            (and_then-Keeps (freebuf-Keeps OnCache pktptr _ (clear-IsCache k slot h))
              (λ a k' h'. ended k' tt h'))
            given)
    | inr eq ↦ rw eq (search (if-Keeps, ended, and_then-Keeps, freebuf-Keeps OnCache))
  ]

  found-Keeps :
      (pktptr : ℕ) (p : Arppacket) (k : Kernel)
      → Cached k
      → Keeps Cached (handle_op write pktptr p true k)
  unfolding handle_op
  found-Keeps pktptr p k h =
      search (if-Keeps, ended, and_then-Keeps, answer-Keeps, freebuf-Keeps OnCache)

  new-Keeps :
      (pktptr : ℕ) (p : Arppacket) (k : Kernel)
      → Cached k
      → ((j : ℕ) → j < arp_siz → has_addr p.arp_sndpa (k.net.arpcache j) ≡ false)
      → Keeps Cached (handle_op write pktptr p false k)
  unfolding handle_op
  new-Keeps pktptr p k h none_has =
      let added = add_sender-Keeps pktptr p k h none_has in
      search (if-Keeps, ended, and_then-Keeps, freebuf-Keeps OnCache)

  arp_in-Keeps :
      (pktptr : ℕ) (raw : Arppacket) (k : Kernel)
      → Cached k
      → Keeps Cached (arp_in write pktptr raw k)
  unfolding arp_in arp_find
  arp_in-Keeps pktptr raw k h =
      let p = arp_ntoh raw in
      let c = k.net.arpcache in
      let slot = arp_find c p.arp_sndpa in
      let found = first_lem (λ i. has_addr p.arp_sndpa (c i)) arp_siz 0 arp_siz (omega arith) in
      elim (Bool-cases (ltb slot arp_siz)) [
        | inl hit ↦
            let noted =
              note_sender-Keeps slot p.arp_sndha k h (ground (arith, hit))
                (ground (arith, hit, found.stops (ground (arith, hit)))) in
            rw hit (search (if-Keeps, ended, and_then-Keeps, found-Keeps, freebuf-Keeps OnCache))
        | inr miss ↦
            let added =
              new-Keeps pktptr p k h
                (λ j lj. found.skips j (omega arith) (ground (arith, miss, found.upper))) in
            rw miss (search (if-Keeps, ended, and_then-Keeps, freebuf-Keeps OnCache))
      ]

-- `arp_resolve` and `arp_in` keep the cache in order: no two entries in use have one address, whenever
-- they give up the processor and when they end, as long as the Ethernet driver and the processes that
-- run in between keep it so.
pub arp-Keeps :
    (write : Arppacket → Code ℕ) (nxthop : ℕ) (mac : Mac) (pktptr : ℕ) (raw : Arppacket)
    (k : Kernel)
    → ((p : Arppacket) (k' : Kernel) → Cached k' → Keeps Cached (write p k'))
    → Cached k
    → Keeps Cached (arp_resolve write nxthop mac k) × Keeps Cached (arp_in write pktptr raw k)
arp-Keeps write nxthop mac pktptr raw k driver h =
    (arp_resolve-Keeps write driver nxthop mac k h, arp_in-Keeps write driver pktptr raw k h)

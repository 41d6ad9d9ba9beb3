-- ===== src/Net/Learn.antt =====
-- What ARP learns from a packet.
use os_demand_paging.Net.Quiet.{freebuf-Keeps, send-Keeps}
use os_demand_paging.Kernel.Keeps.{Keeps, and_then-Keeps, ended, if-Keeps}
use os_demand_paging.Net.Packet.{Mac, Arpentry, Arppacket, Net}
use os_demand_paging.Net.Arp.{
  arp_siz, ar_resolved, has_addr, arp_find, arp_alloc, arp_htype_ethernet, add_sender, answer,
  ar_pending, arp_ptype_ip, handle_op, note_sender, arp_op_rply, clear_entry, ar_free, find_state,
  arp_in, arp_ntoh,
}
use os_demand_paging.Net.Known.{Knows}
use os_demand_paging.Net.Stable.{Cached}
use os_demand_paging.Kernel.{Kernel, Code}
use os_demand_paging.Base.{
  ℕ, ◌<◌, ◌≡◌, ◌≢◌, inl, inr, true, ◌==◌, ltb, Table, arith, refl, ok, first_lem, Bool-cases,
  syserr, false, ==_refl, ◌||◌, not,
}

-- A slot is found if an entry does not wait for an answer.
arp_alloc-some :
    (k : Kernel) (j : ℕ)
    → Cached k
    → j < arp_siz
    → (k.net.arpcache j).arstate ≢ ar_pending
    → (slot : ℕ) × (slot < arp_siz) × (arp_alloc k ≡ (clear_entry slot k, slot))
unfolding arp_alloc
arp_alloc-some k j h small idle =
    let c = k.net.arpcache in
    let free = first_lem (λ i. (c i).arstate == ar_free) arp_siz 0 arp_siz (omega arith) in
    let resolved = first_lem (λ i. (c i).arstate == ar_resolved) arp_siz 0 arp_siz (omega arith) in
    let slot = find_state c ar_free in
    let slot' = find_state c ar_resolved in
    elim (Bool-cases (ltb slot arp_siz)) [
      | inl hit ↦ (slot, ground (arith, hit), rw hit refl)
      | inr miss ↦ elim (Bool-cases (ltb slot' arp_siz)) [
        | inl hit ↦ (slot', ground (arith, hit), rw (miss, hit) refl)
        | inr miss' ↦
            let not_free = free.skips j (omega arith) (ground (arith, miss, free.upper)) in
            let not_resolved =
              resolved.skips j (omega arith) (ground (arith, miss', resolved.upper)) in
            absurd (ground (arith, not_free, not_resolved, h.states j))
      ]
    ]

-- The packet, in host byte order, is an ARP request for IP and Ethernet, to this machine.
pub record ToUs (k : Kernel) (p : Arppacket) : Type 0 where
  pub ethernet : p.arp_htype ≡ arp_htype_ethernet
  pub ip : p.arp_ptype ≡ arp_ptype_ip
  pub request : p.arp_op ≢ arp_op_rply
  pub valid : k.net.netdata.ipvalid ≡ true
  pub target : p.arp_tarpa ≡ k.net.netdata.ipucast

module _ (write : Arppacket → Code ℕ) (addr : ℕ) (mac : Mac)
    (driver : (p : Arppacket) (k : Kernel)
      → Knows addr mac k.net.arpcache
      → Keeps (λ k'. Knows addr mac k'.net.arpcache) (write p k)) where
  abbrev KnownTo : Net → Type 0
  KnownTo n = Knows addr mac n.arpcache

  abbrev Knowing : Kernel → Type 0
  Knowing k = Knows addr mac k.net.arpcache

  answer-Knows :
      (pktptr : ℕ) (p : Arppacket) (k : Kernel)
      → Knowing k
      → Keeps Knowing (answer write pktptr p k)
  unfolding answer
  answer-Knows pktptr p k h = search (ended, and_then-Keeps, driver, freebuf-Keeps KnownTo)

  -- The sender's entry is set.
  note-Knows :
      (slot : ℕ) (k : Kernel)
      → Cached k
      → slot < arp_siz
      → has_addr addr (k.net.arpcache slot) ≡ true
      → Keeps Knowing (note_sender slot mac k)
  unfolding note_sender
  note-Knows slot k h small hit = elim (Bool-cases ((k.net.arpcache slot).arstate == ar_pending)) [
    | inl waits ↦ rw waits (
        and_then-Keeps
          (send-Keeps KnownTo (k.net.arpcache slot).arpid ok _ (record {
            slot = slot;
            small = small;
            resolved = ground arith;
            for_addr = ground (arith, hit);
            has_mac = rw (==_refl slot) refl;
          }))
          (λ a k' h'. ended k' tt h'))
    | inr known ↦ rw known (
        ended _ tt (record {
          slot = slot;
          small = small;
          resolved = ground (arith, hit, known, h.states slot);
          for_addr = ground (arith, hit);
          has_mac = rw (==_refl slot) refl;
        }))
  ]

  after_note-Knows :
      (pktptr : ℕ) (p : Arppacket) (k : Kernel)
      → Knowing k
      → Keeps Knowing (handle_op write pktptr p true k)
  unfolding handle_op
  after_note-Knows pktptr p k h =
      search (if-Keeps, ended, and_then-Keeps, answer-Knows, freebuf-Keeps KnownTo)

  add-Knows :
      (pktptr : ℕ) (p : Arppacket) (k : Kernel) (j : ℕ)
      → Cached k
      → j < arp_siz
      → (k.net.arpcache j).arstate ≢ ar_pending
      → p.arp_sndpa ≡ addr
      → p.arp_sndha ≡ mac
      → Keeps Knowing (add_sender write pktptr p k)
  unfolding add_sender
  add-Knows pktptr p k j h lj idle is_addr is_mac =
      let (slot, small, eq) = arp_alloc-some k j h lj idle in
      let real : (slot == syserr) ≡ false = ground (arith, small) in
      rw (eq, real)
        (answer-Knows pktptr p _ (record {
          slot = slot;
          small = small;
          resolved = ground arith;
          for_addr = ground (arith, is_addr);
          has_mac = rw (==_refl slot) is_mac;
        }))

  new-Knows :
      (pktptr : ℕ) (p : Arppacket) (k : Kernel) (j : ℕ)
      → Cached k
      → ToUs k p
      → j < arp_siz
      → (k.net.arpcache j).arstate ≢ ar_pending
      → p.arp_sndpa ≡ addr
      → p.arp_sndha ≡ mac
      → Keeps Knowing (handle_op write pktptr p false k)
  unfolding handle_op
  new-Knows pktptr p k j h to_us lj idle is_addr is_mac =
      let serve : ((p.arp_op == arp_op_rply)
            || (not k.net.netdata.ipvalid || not (p.arp_tarpa == k.net.netdata.ipucast)))
          ≡ false =
        ground (arith, to_us.request, to_us.valid, to_us.target) in
      rw serve (add-Knows pktptr p k j h lj idle is_addr is_mac)

arp_find-has_addr :
    (c : Table Arpentry) (addr : ℕ)
    → arp_find c addr < arp_siz
    → has_addr addr (c (arp_find c addr)) ≡ true
unfolding arp_find
arp_find-has_addr c addr h =
    (first_lem (λ i. has_addr addr (c i)) arp_siz 0 arp_siz (omega arith)).stops h

-- The cache has the hardware address of the packet's sender.
abbrev pub SenderKnown : Arppacket → Kernel → Type 0
SenderKnown raw k = Knows (arp_ntoh raw).arp_sndpa (arp_ntoh raw).arp_sndha k.net.arpcache

-- A request to this machine puts its sender into the cache, unless all entries wait for an answer: the
-- sender's hardware address is known whenever the code gives up the processor and when it ends, as
-- long as the driver and the processes that run in between do not forget it.
pub arp_in-Knows :
    (write : Arppacket → Code ℕ) (pktptr : ℕ) (raw : Arppacket) (k : Kernel) (j : ℕ)
    → ((p : Arppacket) (k' : Kernel) → SenderKnown raw k' → Keeps (SenderKnown raw) (write p k'))
    → Cached k
    → ToUs k (arp_ntoh raw)
    → j < arp_siz
    → (k.net.arpcache j).arstate ≢ ar_pending
    → Keeps (SenderKnown raw) (arp_in write pktptr raw k)
unfolding arp_in
arp_in-Knows write pktptr raw k j driver h to_us lj idle =
    let p = arp_ntoh raw in
    let addr = p.arp_sndpa in
    let c = k.net.arpcache in
    let slot = arp_find c addr in
    let check : (not (p.arp_htype == arp_htype_ethernet) || not (p.arp_ptype == arp_ptype_ip))
        ≡ false =
      ground (arith, to_us.ethernet, to_us.ip) in
    elim (Bool-cases (ltb slot arp_siz)) [
      | inl hit ↦
          rw (check, hit)
            (and_then-Keeps
              (note-Knows write addr p.arp_sndha driver slot k h (ground (arith, hit))
                (arp_find-has_addr c addr (ground (arith, hit))))
              (λ a k' h'. after_note-Knows write addr p.arp_sndha driver pktptr p k' h'))
      | inr miss ↦
          rw (check, miss)
            (new-Knows write addr p.arp_sndha driver pktptr p k j h to_us lj idle refl refl)
    ]

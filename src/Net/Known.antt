-- ===== src/Net/Known.antt =====
-- That `arp_resolve` answers with what the ARP cache knows.
use os_demand_paging.Net.Packet.{Mac, Arpentry, Arppacket}
use os_demand_paging.Net.Arp.{arp_siz, ar_resolved, has_addr, arp_find, arp_resolve, ip_bcast}
use os_demand_paging.Net.Unique.{IsCache}
use os_demand_paging.Net.Stable.{Cached}
use os_demand_paging.Kernel.{Kernel, Code, done}
use os_demand_paging.Base.{
  ℕ, ◌<◌, ◌≡◌, ◌≢◌, inl, inr, true, ◌&&◌, ◌==◌, ltb, Table, arith, refl, ok, first_lem, Bool-cases,
  ne→==,
}

-- The cache has the hardware address for the address.
pub record Knows (addr : ℕ) (mac : Mac) (c : Table Arpentry) : Type 0 where
  pub slot : ℕ
  pub small : slot < arp_siz
  pub resolved : (c slot).arstate ≡ ar_resolved
  pub for_addr : (c slot).arpaddr ≡ addr
  pub has_mac : (c slot).arhaddr ≡ mac

-- The search finds the entry that knows the address.
find-Knows :
    (addr : ℕ) (mac : Mac) (c : Table Arpentry)
    → IsCache c
    → (known : Knows addr mac c) → arp_find c addr ≡ known.slot
unfolding arp_find
find-Knows addr mac c h known =
    let found = first_lem (λ i. has_addr addr (c i)) arp_siz 0 arp_siz (omega arith) in
    let i = arp_find c addr in
    elim (Bool-cases (ltb known.slot i)) [
      | inl late ↦ ground (
        arith,
        late,
        known.resolved,
        known.for_addr,
        found.skips known.slot (omega arith) (ground (arith, late)),
      )
      | inr early ↦
          let hit = found.stops (ground (arith, early, known.small)) in
          h.unique i known.slot (ground (arith, early, known.small)) known.small
            (ground (arith, hit)) (ground (arith, known.resolved))
            (ground (arith, hit, known.for_addr))
    ]

-- For an address that the cache knows, and that is not a broadcast address, `arp_resolve` answers at
-- once, with the hardware address in the cache, and changes nothing.
pub arp_resolve-Knows :
    (write : Arppacket → Code ℕ) (addr : ℕ) (mac old : Mac) (k : Kernel)
    → Cached k
    → Knows addr mac k.net.arpcache
    → addr ≢ ip_bcast
    → addr ≢ k.net.netdata.ipbcast
    → arp_resolve write addr old k ≡ done k (ok, mac)
unfolding arp_resolve
arp_resolve-Knows write addr mac old k h known ne ne' =
    let c = k.net.arpcache in
    let at = find-Knows addr mac c h known in
    let hit : (ltb known.slot arp_siz && ((c known.slot).arstate == ar_resolved)) ≡ true =
      ground (arith, known.small, known.resolved) in
    rw (ne→== addr ip_bcast ne, ne→== addr k.net.netdata.ipbcast ne', at, hit, known.has_mac) refl

-- ===== src/Net/Arp.antt =====
-- The Address Resolution Protocol: net/arp.c, and `eth_hton` of net/net.c. The Ethernet driver is a
-- parameter, `write`. The packet that a buffer holds is an argument beside the buffer's address.
use os_demand_paging.Base.{
  ℕ, zero, suc, ◌==◌, ltb, Bool, true, false, not, ◌&&◌, ◌||◌, [], ◌∷◌, Table, put, first, sweep,
  if◌then◌else◌, syserr, ok,
}
use os_demand_paging.Kernel.{Kernel, Code, done, pure, ◌>>◌, ◌>>=◌}
use os_demand_paging.Net.Packet.{Mac, Arppacket, Arpentry, Network, htons, htonl}
use os_demand_paging.Message.{send, recvclr, recvtime, timeout}
use os_demand_paging.Buffer.{freebuf}

abbrev pub arp_halen : ℕ
arp_halen = 6

abbrev pub arp_palen : ℕ
arp_palen = 4

abbrev pub arp_htype_ethernet : ℕ
arp_htype_ethernet = 1

abbrev pub arp_ptype_ip : ℕ
arp_ptype_ip = 0x0800

abbrev pub arp_op_req : ℕ
arp_op_req = 1

abbrev pub arp_op_rply : ℕ
arp_op_rply = 2

abbrev pub arp_siz : ℕ
arp_siz = 16

abbrev pub arp_retry : ℕ
arp_retry = 3

abbrev pub arp_timeout : ℕ
arp_timeout = 300

abbrev pub ar_free : ℕ
ar_free = 0

abbrev pub ar_pending : ℕ
ar_pending = 1

abbrev pub ar_resolved : ℕ
ar_resolved = 2

abbrev pub eth_arp : ℕ
eth_arp = 0x0806

abbrev pub ip_bcast : ℕ
ip_bcast = 0xffff_ffff

abbrev pub zero_mac : Mac
zero_mac = 0 ∷ 0 ∷ 0 ∷ 0 ∷ 0 ∷ 0 ∷ []

abbrev pub set_cache : (Table Arpentry → Table Arpentry) → Kernel → Kernel
set_cache f k = record k { net = record k.net { arpcache = f k.net.arpcache } }

abbrev pub set_entry : ℕ → (Arpentry → Arpentry) → Kernel → Kernel
set_entry slot f = set_cache (λ c. put c slot (f (c slot)))

-- The loop begins at 1.
unfoldable pub arp_init : Kernel → Kernel
arp_init = set_cache (sweep 15 1 (λ i e. record e { arstate = ar_free }))

-- The entry is in use, for the address.
abbrev pub has_addr : ℕ → Arpentry → Bool
has_addr addr e = not (e.arstate == ar_free) && (e.arpaddr == addr)

-- The search of `arp_resolve` and of `arp_in`: `arp_siz` if there is no entry.
unfoldable pub arp_find : Table Arpentry → ℕ → ℕ
arp_find c addr = first (λ slot. has_addr addr (c slot)) arp_siz 0

-- The first entry in the state
abbrev pub find_state : Table Arpentry → ℕ → ℕ
find_state c state = first (λ slot. (c slot).arstate == state) arp_siz 0

-- `memset` of an entry
abbrev pub clear_entry : ℕ → Kernel → Kernel
clear_entry slot =
    set_entry slot (λ e. record { arstate = 0; arpaddr = 0; arpid = 0; arhaddr = zero_mac })

unfoldable pub arp_alloc : Kernel → Kernel × ℕ
arp_alloc k =
    let slot = find_state k.net.arpcache ar_free in
    let slot' = find_state k.net.arpcache ar_resolved in
    if ltb slot arp_siz
    then (clear_entry slot k, slot)
    else (if ltb slot' arp_siz then (clear_entry slot' k, slot') else (k, syserr))

unfoldable pub arp_ntoh : Arppacket → Arppacket
arp_ntoh p = record p {
  arp_htype = htons p.arp_htype;
  arp_ptype = htons p.arp_ptype;
  arp_op = htons p.arp_op;
  arp_sndpa = htonl p.arp_sndpa;
  arp_tarpa = htonl p.arp_tarpa;
}

unfoldable pub arp_hton : Arppacket → Arppacket
arp_hton p = record p {
  arp_htype = htons p.arp_htype;
  arp_ptype = htons p.arp_ptype;
  arp_op = htons p.arp_op;
  arp_sndpa = htonl p.arp_sndpa;
  arp_tarpa = htonl p.arp_tarpa;
}

unfoldable pub eth_hton : Arppacket → Arppacket
eth_hton p = record p { arp_ethtype = htons p.arp_ethtype }

-- The packet that asks for the hardware address of `nxthop`
unfoldable pub arp_request : Network → ℕ → Arppacket
arp_request d nxthop = eth_hton (
    arp_hton (record {
      arp_ethdst = d.ethbcast;
      arp_ethsrc = d.ethucast;
      arp_ethtype = eth_arp;
      arp_htype = arp_htype_ethernet;
      arp_ptype = arp_ptype_ip;
      arp_hlen = arp_halen;
      arp_plen = arp_palen;
      arp_op = arp_op_req;
      arp_sndha = d.ethucast;
      arp_sndpa = d.ipucast;
      arp_tarha = zero_mac;
      arp_tarpa = nxthop;
    }))

-- The answer to the request `p`
unfoldable pub arp_reply : Network → Arppacket → Arppacket
arp_reply d p = eth_hton (
    arp_hton (record {
      arp_ethdst = p.arp_sndha;
      arp_ethsrc = d.ethucast;
      arp_ethtype = eth_arp;
      arp_htype = arp_htype_ethernet;
      arp_ptype = arp_ptype_ip;
      arp_hlen = arp_halen;
      arp_plen = arp_palen;
      arp_op = arp_op_rply;
      arp_sndha = d.ethucast;
      arp_sndpa = d.ipucast;
      arp_tarha = p.arp_sndha;
      arp_tarpa = p.arp_sndpa;
    }))

-- The rounds of the loop that are left, and the message of the last one.
unfoldable pub await_reply : (Arppacket → Code ℕ) → ℕ → Arppacket → ℕ → Code ℕ
await_reply write zero p msg = pure msg
await_reply write (suc n) p msg =
    write p
    >> (recvtime arp_timeout >>= λ msg'. elim (msg' == timeout) [
      | true ↦ await_reply write n p msg'
      | false ↦ pure msg'
    ])

-- What is done with the last message; the result is the status and what is at `mac`.
unfoldable pub end_resolve : ℕ → Mac → ℕ → Code (ℕ × Mac)
end_resolve slot mac msg k =
    if msg == syserr
    then done k (syserr, mac)
    else (if msg == timeout
        then done (set_entry slot (λ e. record e { arstate = ar_free }) k) (timeout, mac)
        else done k (ok, (k.net.arpcache slot).arhaddr))

-- The part that sends a request and waits, from the entry that was allocated.
unfoldable pub ask : (Arppacket → Code ℕ) → ℕ → ℕ → Mac → Code (ℕ × Mac)
ask write slot nxthop mac k =
    (recvclr
        >> (await_reply write arp_retry (arp_request k.net.netdata nxthop) 0
            >>= end_resolve slot mac))
      (set_entry slot (λ e. record e { arstate = ar_pending; arpaddr = nxthop; arpid = k.currpid })
        k)

unfoldable pub arp_resolve : (Arppacket → Code ℕ) → ℕ → Mac → Code (ℕ × Mac)
arp_resolve write nxthop mac k =
    let i = arp_find k.net.arpcache nxthop in
    let e = k.net.arpcache i in
    let (k', slot) = arp_alloc k in
    if nxthop == ip_bcast || nxthop == k.net.netdata.ipbcast
    then done k (ok, k.net.netdata.ethbcast)
    else (if ltb i arp_siz && (e.arstate == ar_resolved)
        then done k (ok, e.arhaddr)
        else (if ltb i arp_siz && (e.arstate == ar_pending)
            then done k (syserr, mac)
            else (if slot == syserr then done k' (syserr, mac) else ask write slot nxthop mac k')))

-- The sender is in the cache: its hardware address is set, and a process that waits is informed.
unfoldable pub note_sender : ℕ → Mac → Code (Unit {0})
note_sender slot sndha k =
    let k' = set_entry slot (λ e. record e { arhaddr = sndha }) k in
    let e = k.net.arpcache slot in
    if e.arstate == ar_pending
    then (send e.arpid ok >> pure tt) (set_entry slot (λ e. record e { arstate = ar_resolved }) k')
    else done k' tt

-- The reply is sent, and the buffer goes back.
unfoldable pub answer : (Arppacket → Code ℕ) → ℕ → Arppacket → Code (Unit {0})
answer write pktptr p k = (write (arp_reply k.net.netdata p) >> (freebuf pktptr >> pure tt)) k

-- The sender of a request goes into the cache.
unfoldable pub add_sender : (Arppacket → Code ℕ) → ℕ → Arppacket → Code (Unit {0})
add_sender write pktptr p k =
    let (k', slot) = arp_alloc k in
    if slot == syserr
    then (freebuf pktptr >> pure tt) k'
    else answer write pktptr p (
        set_entry slot
          (λ e. record e { arpaddr = p.arp_sndpa; arhaddr = p.arp_sndha; arstate = ar_resolved })
          k')

-- What follows the search; `found` says whether the sender is in the cache.
unfoldable pub handle_op : (Arppacket → Code ℕ) → ℕ → Arppacket → Bool → Code (Unit {0})
handle_op write pktptr p found k =
    if (p.arp_op == arp_op_rply)
      || (not k.net.netdata.ipvalid || not (p.arp_tarpa == k.net.netdata.ipucast))
    then (freebuf pktptr >> pure tt) k
    else (if found then answer write pktptr p k else add_sender write pktptr p k)

unfoldable pub arp_in : (Arppacket → Code ℕ) → ℕ → Arppacket → Code (Unit {0})
arp_in write pktptr raw k =
    let p = arp_ntoh raw in
    let slot = arp_find k.net.arpcache p.arp_sndpa in
    if not (p.arp_htype == arp_htype_ethernet) || not (p.arp_ptype == arp_ptype_ip)
    then (freebuf pktptr >> pure tt) k
    else (if ltb slot arp_siz
        then (note_sender slot p.arp_sndha >> handle_op write pktptr p true) k
        else handle_op write pktptr p false k)

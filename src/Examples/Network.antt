-- ===== src/Examples/Network.antt =====
-- A machine with the address 10 and, in its ARP cache, the address 20. Its driver returns at once.
use os_demand_paging.Net.Packet.{Mac, Arppacket, Arpentry, htons, htonl}
use os_demand_paging.Net.Arp.{arp_in, arp_resolve, arp_ntoh}
use os_demand_paging.Net.Stable.{arp-Keeps, Cached}
use os_demand_paging.Net.Known.{arp_resolve-Knows}
use os_demand_paging.Net.Learn.{arp_in-Knows, SenderKnown, ToUs}
use os_demand_paging.Kernel.{Kernel, Code, done, pure}
use os_demand_paging.Kernel.Keeps.{Keeps, ended}
use os_demand_paging.Examples.Heap.{kernel}
use os_demand_paging.Base.{ℕ, ◌≡◌, true, [], ◌∷◌, arith, refl, put, ok, ◌*◌, ◌^◌}

abbrev mac20 : Mac
mac20 = 2 ∷ 2 ∷ 2 ∷ 2 ∷ 2 ∷ 2 ∷ []

abbrev mac30 : Mac
mac30 = 3 ∷ 3 ∷ 3 ∷ 3 ∷ 3 ∷ 3 ∷ []

abbrev no_entry : Arpentry
no_entry = record { arstate = 0; arpaddr = 0; arpid = 0; arhaddr = [] }

abbrev host : Kernel
host = record (kernel 0) {
  net = record {
    arpcache =
        put (λ i. no_entry) 4 (record { arstate = 2; arpaddr = 20; arpid = 0; arhaddr = mac20 });
    netdata = record { ipucast = 10; ipbcast = 255; ipvalid = true; ethucast = []; ethbcast = [] };
  };
}

host-Cached : Cached host
host-Cached = record { states = λ i. ground arith; unique = λ i j li lj fi fj same. ground arith }

-- A request of 30 for 10, in network byte order
abbrev request : Arppacket
request = record {
  arp_ethdst = [];
  arp_ethsrc = mac30;
  arp_ethtype = 0x0806;
  arp_htype = 256;
  arp_ptype = 8;
  arp_hlen = 6;
  arp_plen = 4;
  arp_op = 256;
  arp_sndha = mac30;
  arp_sndpa = 30 * 2 ^ 24;
  arp_tarha = [];
  arp_tarpa = 10 * 2 ^ 24;
}

abbrev sends : Arppacket → Code ℕ
sends p = pure 42

arp-Keeps_example :
    Keeps Cached (arp_resolve sends 30 [] host) × Keeps Cached (arp_in sends 4100 request host)
arp-Keeps_example = arp-Keeps sends 30 [] 4100 request host (λ p k h. ended k 42 h) host-Cached

arp_resolve-Knows_example : arp_resolve sends 20 [] host ≡ done host (ok, mac20)
arp_resolve-Knows_example =
    arp_resolve-Knows sends 20 mac20 [] host host-Cached
      (record { slot = 4; small = omega arith; resolved = refl; for_addr = refl; has_mac = refl })
      (omega arith) (omega arith)

request-ToUs : ToUs host (arp_ntoh request)
unfolding arp_ntoh htons htonl
request-ToUs = record {
  ethernet = refl;
  ip = refl;
  request = omega arith;
  valid = refl;
  target = refl;
}

arp_in-Knows_example : Keeps (SenderKnown request) (arp_in sends 4100 request host)
arp_in-Knows_example =
    arp_in-Knows sends 4100 request host 0 (λ p k h. ended k 42 h) host-Cached request-ToUs
      (omega arith) (omega arith)

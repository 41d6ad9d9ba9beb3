-- ===== src/Net/Packet.antt =====
-- ARP packets and the ARP cache: include/arp.h, include/net.h, and the byte order macros of
-- include/prototypes.h. A hardware address is the list of its bytes.
use os_demand_paging.Base.{ℕ, ◌+◌, ◌*◌, ◌/◌, ◌%◌, ◌^◌, Bool, List, Table}

abbrev pub Mac : Type 0
Mac = List ℕ

-- `struct arppacket`
pub record Arppacket : Type 0 where
  pub arp_ethdst : Mac
  pub arp_ethsrc : Mac
  pub arp_ethtype : ℕ
  pub arp_htype : ℕ
  pub arp_ptype : ℕ
  pub arp_hlen : ℕ
  pub arp_plen : ℕ
  pub arp_op : ℕ
  pub arp_sndha : Mac
  pub arp_sndpa : ℕ
  pub arp_tarha : Mac
  pub arp_tarpa : ℕ

-- `struct arpentry`
pub record Arpentry : Type 0 where
  pub arstate : ℕ
  pub arpaddr : ℕ
  pub arpid : ℕ
  pub arhaddr : Mac

-- `struct network`, as far as ARP reads it
pub record Network : Type 0 where
  pub ipucast : ℕ
  pub ipbcast : ℕ
  pub ipvalid : Bool
  pub ethucast : Mac
  pub ethbcast : Mac

-- `arpcache` and `NetData`
pub record Net : Type 0 where
  pub arpcache : Table Arpentry
  pub netdata : Network

-- `htons` and `ntohs`
unfoldable pub htons : ℕ → ℕ
htons x = x / 256 % 256 + x % 256 * 256

-- `htonl` and `ntohl`
unfoldable pub htonl : ℕ → ℕ
htonl x = x / 2 ^ 24 % 256 + x / 2 ^ 16 % 256 * 256 + x / 256 % 256 * 2 ^ 16 + x % 256 * 2 ^ 24

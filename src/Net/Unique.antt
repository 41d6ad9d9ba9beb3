-- ===== src/Net/Unique.antt =====
-- The ARP cache has one entry for an address at most, whatever processes run while the code waits.
use os_demand_paging.Net.Packet.{Arpentry}
use os_demand_paging.Net.Arp.{
  arp_siz, ar_free, ar_pending, ar_resolved, has_addr, arp_find, find_state, clear_entry, arp_alloc,
}
use os_demand_paging.Kernel.{Kernel}
use native.Mathlib.Decide.{ℕ_discrete}
use os_demand_paging.Base.{
  ℕ, ◌<◌, ◌≤◌, ◌≡◌, ◌≢◌, ◌⊎◌, inl, inr, false, ◌&&◌, ◌==◌, ltb, put, Table, arith, refl, syserr,
  first_lem, Bool-cases,
}

-- Two entries in use do not have the same address.
pub record IsCache (c : Table Arpentry) : Type 0 where
  pub states : (i : ℕ) → (c i).arstate ≤ ar_resolved
  pub unique :
      (i j : ℕ)
      → i < arp_siz
      → j < arp_siz
      → (c i).arstate ≢ ar_free
      → (c j).arstate ≢ ar_free
      → (c i).arpaddr ≡ (c j).arpaddr
      → i ≡ j

-- The entry of one slot changes, and no other entry in use has its address.
pub put-IsCache :
    (c : Table Arpentry) (slot : ℕ) (e : Arpentry)
    → IsCache c
    → e.arstate ≤ ar_resolved
    → ((j : ℕ)
        → j < arp_siz
        → j ≢ slot
        → (c j).arstate ≢ ar_free
        → e.arstate ≢ ar_free
        → (c j).arpaddr ≢ e.arpaddr)
    → IsCache (put c slot e)
put-IsCache c slot e h le other = record {
  states = λ i. ground (arith, h.states i);
  unique = λ i j li lj fi fj same. elim (ℕ_discrete i slot) [
    | yes at ↦ elim (ℕ_discrete j slot) [
      | yes at' ↦ omega arith
      | no off' ↦ ground (arith, other j lj off')
    ]
    | no off ↦ elim (ℕ_discrete j slot) [
      | yes at' ↦ ground (arith, other i li off)
      | no off' ↦ ground (arith, h.unique i j li lj)
    ]
  ];
}

pub clear-IsCache :
    (k : Kernel) (slot : ℕ) → IsCache k.net.arpcache → IsCache (clear_entry slot k).net.arpcache
clear-IsCache k slot h =
    put-IsCache k.net.arpcache slot _ h (omega arith) (λ j lj off fj fe. absurd (fe refl))

-- A slot is cleared, or all entries wait for an answer.
pub arp_alloc-cases :
    (k : Kernel)
    → ((slot : ℕ) × (slot < arp_siz) × (arp_alloc k ≡ (clear_entry slot k, slot)))
      ⊎ (arp_alloc k ≡ (k, syserr))
unfolding arp_alloc
arp_alloc-cases k =
    let slot = find_state k.net.arpcache ar_free in
    let slot' = find_state k.net.arpcache ar_resolved in
    elim (Bool-cases (ltb slot arp_siz)) [
      | inl hit ↦ inl (slot, ground (arith, hit), rw hit refl)
      | inr miss ↦ elim (Bool-cases (ltb slot' arp_siz)) [
        | inl hit ↦ inl (slot', ground (arith, hit), rw (miss, hit) refl)
        | inr miss' ↦ inr (rw (miss, miss') refl)
      ]
    ]

-- The search for the address has found no entry that is resolved or pending.
pub absent :
    (c : Table Arpentry) (addr : ℕ)
    → IsCache c
    → (ltb (arp_find c addr) arp_siz && ((c (arp_find c addr)).arstate == ar_resolved)) ≡ false
    → (ltb (arp_find c addr) arp_siz && ((c (arp_find c addr)).arstate == ar_pending)) ≡ false
    → (j : ℕ) → j < arp_siz
    → has_addr addr (c j) ≡ false
unfolding arp_find
absent c addr h r p j lj =
    let found = first_lem (λ slot. has_addr addr (c slot)) arp_siz 0 arp_siz (omega arith) in
    elim (Bool-cases (ltb (arp_find c addr) arp_siz)) [
      | inl hit ↦
          ground (arith, hit, r, p, h.states (arp_find c addr), found.stops (ground (arith, hit)))
      | inr miss ↦ found.skips j (omega arith) (ground (arith, miss, found.upper))
    ]

-- The entry that was cleared is taken for an address that no entry has.
pub take-IsCache :
    (k : Kernel) (slot : ℕ) (e : Arpentry)
    → IsCache k.net.arpcache
    → e.arstate ≤ ar_resolved
    → ((j : ℕ) → j < arp_siz → has_addr e.arpaddr (k.net.arpcache j) ≡ false)
    → IsCache (put (clear_entry slot k).net.arpcache slot e)
take-IsCache k slot e h le none_has =
    put-IsCache (clear_entry slot k).net.arpcache slot e (clear-IsCache k slot h) le
      (λ j lj off fj fe. ground (arith, none_has j lj, off))

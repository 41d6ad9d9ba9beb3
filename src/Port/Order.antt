-- ===== src/Port/Order.antt =====
-- What a port takes in it gives out in the same order.
use os_demand_paging.Paging.Bytes.{load, load-aligned}
use mathlib.Core.Path.{subst}
use os_demand_paging.Semaphore.{signal}
use os_demand_paging.Paging.Entry.{Mem}
use os_demand_paging.Port.Nodes.{IsNode, messages, Seg-tail, messages-keep, Seg-keep, AllNodes-at}
use os_demand_paging.Port.Fifo.{Holds, put-empty, put-behind, store-next, load-next}
use os_demand_paging.Port.{
  put_message, drop_message, deliver_to, fetch_from, port_lost, Mem, signal, load,
}
use os_demand_paging.Queue.Chain.{Fresh}
use os_demand_paging.Kernel.{◌>>◌, pure, Kernel}
use os_demand_paging.Base.{
  refl, true, false, [], ◌∷◌, ◌++◌, ℕ, ◌≡◌, ◌+◌, ◌≢◌, ◌/◌, ◌==◌, arith, ◌∙◌, List, ap, put, sym, ok,
  ==_refl,
}

-- The other nodes, after the next of `n` is written.
cut-word :
    (m : Mem) (n v x : ℕ)
    → IsNode n
    → IsNode x
    → x ≢ n
    → (put m (n / 4 + 1) v (x / 4) ≡ m (x / 4)) × (put m (n / 4 + 1) v (x / 4 + 1) ≡ m (x / 4 + 1))
cut-word m n v x i j d = (ground arith, ground arith)

-- The first message is taken out.
drop-Holds :
    (k : Kernel) (portid n : ℕ) (ns : List ℕ)
    → Holds k portid (n ∷ ns) (messages k.vm.mem (n ∷ ns))
    → Holds (drop_message portid k) portid ns (messages k.vm.mem ns)
unfolding drop_message
drop-Holds k portid n [] h =
    let only : ((k.porttab portid).pthead == (k.porttab portid).pttail) ≡ true =
      ground (arith, h.list.0, h.list.1) in
    rw only (record {
      nodes = tt;
      distinct = tt;
      list = (ground arith, ground arith);
      contents = unfold messages in refl;
    })
drop-Holds k portid n (x ∷ ns) h =
    let m = k.vm.mem in
    let m' = put m (n / 4 + 1) k.ptfree in
    let tail = (k.porttab portid).pttail in
    let apart : n ≢ tail =
      λ e. Seg-tail m x tail ns h.list.1.1 (subst (λ z. Fresh z (x ∷ ns)) e h.distinct.0) in
    let more : ((k.porttab portid).pthead == tail) ≡ false = ground (arith, h.list.0, apart) in
    let words = λ (z : ℕ) (g : ¬ Fresh z (x ∷ ns)).
      cut-word m n k.ptfree z h.nodes.0 (AllNodes-at z (x ∷ ns) h.nodes.1 g)
        (λ e. g (subst (λ y. Fresh y (x ∷ ns)) (sym e) h.distinct.0)) in
    rw (more, h.list.0, load-next m n h.nodes.0, store-next m n k.ptfree h.nodes.0)
      (record {
        nodes = h.nodes.1;
        distinct = h.distinct.1;
        list = (
          ground (arith, h.list.1.0),
          rw (==_refl portid) (Seg-keep m m' x tail ns h.list.1.1 (λ z g. (words z g).1)),
        );
        contents = messages-keep m m' (x ∷ ns) (λ z g. (words z g).0);
      })

-- `put_message` leaves the port in use.
put-state :
    (k : Kernel) (portid msg : ℕ)
    → (((put_message portid msg k).porttab portid).ptstate ≡ (k.porttab portid).ptstate)
      × (((put_message portid msg k).porttab portid).ptseq ≡ (k.porttab portid).ptseq)
unfolding put_message
put-state k portid msg = (ground arith, ground arith)

put-Holds :
    (k : Kernel) (portid msg : ℕ) (ns ms : List ℕ)
    → IsNode k.ptfree
    → Fresh k.ptfree ns
    → Holds k portid ns ms
    → (n : ℕ) × (rest : List ℕ) × (ns ++ k.ptfree ∷ [] ≡ n ∷ rest)
      × Holds (put_message portid msg k) portid (n ∷ rest) (ms ++ msg ∷ [])
put-Holds k portid msg [] [] i f h = (k.ptfree, [], refl, put-empty k portid msg k.ptfree i refl h)
put-Holds k portid msg [] (v ∷ ms) i f h =
    absurd (nil_cons v ms (sym (unfold messages in h.contents)))
  where
    nil_cons : (v : ℕ) (ms : List ℕ) → ¬ ((v ∷ ms) ≡ [])
    nil_cons v ms e = ground arith
put-Holds k portid msg (n ∷ ns) ms i f h =
    (n, ns ++ k.ptfree ∷ [], refl, put-behind k portid msg k.ptfree n ns ms i refl f h)

-- A message sent and a message received.
pub record InOrder (k : Kernel) (portid msg seq r : ℕ) (ms : List ℕ) : Type 0 where
  pub k1 : Kernel
  pub k2 : Kernel
  pub first : ℕ
  pub nodes : List ℕ
  pub rest : List ℕ
  pub sent : deliver_to portid msg seq r k ≡ (signal (k1.porttab portid).ptrsem >> pure ok) k1
  pub received : fetch_from portid seq r k1 ≡ (signal (k2.porttab portid).ptssem >> pure first) k2
  pub order : first ∷ rest ≡ ms ++ msg ∷ []
  pub holds : Holds k2 portid nodes rest

-- On a port that is in use, with the messages `ms`, and with a node to spare: once it has its place,
-- `ptsend` puts its message behind the others and signals that there is one more; once it has its
-- message, `ptrecv` returns the one that was sent first and signals that there is a place; and the
-- port holds the others in their order.
pub ptsend-ptrecv :
    (k : Kernel) (portid msg seq r : ℕ) (ns ms : List ℕ)
    → port_lost portid seq r k ≡ false
    → IsNode k.ptfree
    → Fresh k.ptfree ns
    → Holds k portid ns ms
    → InOrder k portid msg seq r ms
unfolding deliver_to fetch_from
ptsend-ptrecv k portid msg seq r ns ms here i f h =
    let (n, rest, e, h1) = put-Holds k portid msg ns ms i f h in
    let k1 = put_message portid msg k in
    let spare : (k.ptfree == 0) ≡ false = ground arith in
    let (state, count) = put-state k portid msg in
    let still : port_lost portid seq r k1 ≡ false = ground (arith, here, state, count) in
    let h1' : Holds k1 portid (n ∷ rest) (messages k1.vm.mem (n ∷ rest)) = record {
      nodes = h1.nodes;
      distinct = h1.distinct;
      list = h1.list;
      contents = refl;
    } in
    let read : load k1.vm.mem (k1.porttab portid).pthead ≡ k1.vm.mem (n / 4) =
      ap (load k1.vm.mem) h1.list.0 ∙ load-aligned k1.vm.mem n (omega (arith, h1.nodes.0)) in
    record {
      k1 = k1;
      k2 = drop_message portid k1;
      first = k1.vm.mem (n / 4);
      nodes = rest;
      rest = messages k1.vm.mem rest;
      sent = rw (here, spare) refl;
      received = rw (still, read) refl;
      order = unfold messages in h1.contents;
      holds = drop-Holds k1 portid n rest h1';
    }

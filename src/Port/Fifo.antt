-- ===== src/Port/Fifo.antt =====
-- Messages go into a port at its tail, and come out at its head.
use mathlib.Core.List.{append-nil}
use mathlib.Core.Path.{subst, sym}
use os_demand_paging.Paging.Entry.{Mem}
use os_demand_paging.Port.Nodes.{
  IsNode, AllNodes, Nodes, messages, Seg-tail, messages-keep, messages-append, Seg-append,
  AllNodes-at, AllNodes-append,
}
use os_demand_paging.Port.{put_message, Mem}
use os_demand_paging.Paging.Bytes.{load-aligned, store-aligned, store, load}
use os_demand_paging.Queue.Chain.{Fresh, Distinct, Distinct-join}
use os_demand_paging.Kernel.{Kernel}
use os_demand_paging.Base.{
  refl, true, false, [], ◌∷◌, if◌then◌else◌, ◌++◌, ℕ, ◌≡◌, ◌+◌, ◌≢◌, ◌/◌, ◌==◌, arith, ◌∙◌, List,
  ap, put, add32, sym, ==_refl,
}

-- The port has the messages `ms`, first to last, in the nodes `ns`.
pub record Holds (k : Kernel) (portid : ℕ) (ns ms : List ℕ) : Type 0 where
  pub nodes : AllNodes ns
  pub distinct : Distinct ns
  pub list : Nodes k.vm.mem (k.porttab portid).pthead (k.porttab portid).pttail ns
  pub contents : messages k.vm.mem ns ≡ ms

-- A node `f` with a message, and no next node.
abbrev filled : Mem → ℕ → ℕ → Mem
filled m f msg = put (put m (f / 4 + 1) 0) (f / 4) msg

filled-stores :
    (m : Mem) (f msg : ℕ) → IsNode f → store (store m (add32 f 4) 0) f msg ≡ filled m f msg
filled-stores m f msg i =
    let next : add32 f 4 ≡ f + 4 = omega arith in
    let word : (f + 4) / 4 ≡ f / 4 + 1 = omega arith in
    store-aligned (store m (add32 f 4) 0) f msg (omega arith)
    ∙ ap (λ t. put t (f / 4) msg)
        (ap (λ a. store m a 0) next
          ∙ store-aligned m (f + 4) 0 (omega arith)
          ∙ ap (λ w. put m w 0) word)

-- The words of other nodes.
filled-word :
    (m : Mem) (f msg x : ℕ)
    → IsNode f
    → IsNode x
    → x ≢ f
    → (filled m f msg (x / 4) ≡ m (x / 4)) × (filled m f msg (x / 4 + 1) ≡ m (x / 4 + 1))
filled-word m f msg x i j n = (ground arith, ground arith)

pub store-next : (m : Mem) (n v : ℕ) → IsNode n → store m (add32 n 4) v ≡ put m (n / 4 + 1) v
store-next m n v i =
    let next : add32 n 4 ≡ n + 4 = omega arith in
    let word : (n + 4) / 4 ≡ n / 4 + 1 = omega arith in
    ap (λ a. store m a v) next ∙ store-aligned m (n + 4) v (omega arith) ∙ ap (λ w. put m w v) word

pub load-next : (m : Mem) (n : ℕ) → IsNode n → load m (add32 n 4) ≡ m (n / 4 + 1)
load-next m n i =
    let next : add32 n 4 ≡ n + 4 = omega arith in
    let word : (n + 4) / 4 ≡ n / 4 + 1 = omega arith in
    ap (λ a. load m a) next ∙ load-aligned m (n + 4) (omega arith) ∙ ap m word

-- Into an empty port.
pub put-empty :
    (k : Kernel) (portid msg f : ℕ)
    → IsNode f
    → k.ptfree ≡ f
    → Holds k portid [] []
    → Holds (put_message portid msg k) portid (f ∷ []) (msg ∷ [])
unfolding put_message messages
put-empty k portid msg f i free h =
    let none_left : ((k.porttab portid).pttail == 0) ≡ true = ground (arith, h.list.1) in
    rw (free, filled-stores k.vm.mem f msg i, none_left)
      (record {
        nodes = (i, tt);
        distinct = (tt, tt);
        list = (ground arith, ground arith);
        contents = ap (λ v. v ∷ []) (ground arith);
      })

-- The words of the nodes that are there, after a node is linked behind `tail`.
linked-word :
    (m : Mem) (f msg tail x : ℕ)
    → IsNode f
    → IsNode tail
    → IsNode x
    → x ≢ f
    → (put (filled m f msg) (tail / 4 + 1) f (x / 4) ≡ m (x / 4))
      × ((put (filled m f msg) (tail / 4 + 1) f (x / 4 + 1))
          ≡ (if x == tail then f else m (x / 4 + 1)))
linked-word m f msg tail x i t j n = (ground arith, ground arith)

-- Behind the last message.
pub put-behind :
    (k : Kernel) (portid msg f n : ℕ) (ns ms : List ℕ)
    → IsNode f
    → k.ptfree ≡ f
    → Fresh f (n ∷ ns)
    → Holds k portid (n ∷ ns) ms
    → Holds (put_message portid msg k) portid (n ∷ (ns ++ f ∷ [])) (ms ++ msg ∷ [])
unfolding put_message
put-behind k portid msg f n ns ms i free fresh h =
    let tail = (k.porttab portid).pttail in
    let seg = h.list.1 in
    let in_list = Seg-tail k.vm.mem n tail ns seg in
    let t : IsNode tail = AllNodes-at tail (n ∷ ns) h.nodes in_list in
    let some_left : (tail == 0) ≡ false = ground arith in
    let m' = put (filled k.vm.mem f msg) (tail / 4 + 1) f in
    let words = λ (x : ℕ) (g : ¬ Fresh x (n ∷ ns)).
      linked-word k.vm.mem f msg tail x i t (AllNodes-at x (n ∷ ns) h.nodes g)
        (λ e. g (subst (λ z. Fresh z (n ∷ ns)) (sym e) fresh)) in
    let new : m' (f / 4) ≡ msg = ground arith in
    rw
      (free, filled-stores k.vm.mem f msg i, some_left, store-next (filled k.vm.mem f msg) tail f t)
      (record {
        nodes = AllNodes-append (n ∷ ns) f h.nodes i;
        distinct =
            Distinct-join f (n ∷ ns) [] (rw (append-nil ns) fresh) (rw (append-nil ns) h.distinct);
        list = (
          ground (arith, h.list.0),
          rw (==_refl portid) (
              Seg-append k.vm.mem m' n tail f ns seg h.distinct
                (λ x g d. (words x g).1 ∙ ground (arith, d)) (ground arith)),
        );
        contents =
            messages-append m' (n ∷ ns) f
            ∙ rw (messages-keep k.vm.mem m' (n ∷ ns) (λ x g. (words x g).0), new, h.contents) refl;
      })

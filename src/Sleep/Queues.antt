-- ===== src/Sleep/Queues.antt =====
-- The sleep queue and the ready list as a process goes from one to the other.
use os_demand_paging.Process.{Procent, isbadpid}
use os_demand_paging.Queue.Chain.{Fresh, Fresh-join, head_of, last_of, Chain-before, Chain-first}
use os_demand_paging.Queue.Refine.{IsQueue, good_qid, good_pid, keys-IsQueue}
use os_demand_paging.Queue.Others.{Apart, Disjoint}
use os_demand_paging.Queue.Frame.{link-other}
use os_demand_paging.Queue.Order.{insert_walk-Place, length-IsQueue, Sorted}
use os_demand_paging.Queue.{
  insert, dequeue, queuetail, minkey, Queuetab, getfirst, getitem, nqent, link, set_key,
}
use os_demand_paging.Base.{false, [], ◌∷◌, ◌++◌, ℕ, ◌≡◌, ◌<◌, ◌≢◌, arith, List, Table, sym_ne, ◌^◌}

-- `insert` into one queue leaves another as it is.
pub insert-other :
    (p : Table Procent) (t : Queuetab) (q r pid key : ℕ) (ps rs : List ℕ)
    → IsQueue t q ps
    → IsQueue t r rs
    → Apart q ps r rs
    → (t (queuetail q)).qkey ≡ minkey
    → isbadpid p pid ≡ false
    → Fresh pid rs
    → key < 2 ^ 32
    → key ≢ minkey
    → IsQueue (insert p t pid q key).0 r rs
unfolding insert
insert-other p t q r pid key ps rs h o apart tail live f lt above =
    let (xs, ys, place, walk) =
      insert_walk-Place t key (queuetail q) nqent q ps h.chain (rw tail (ground arith))
        (omega (arith, length-IsQueue t q ps h)) in
    let prev : (t (head_of ys (queuetail q))).qprev ≡ last_of q xs =
      Chain-before t q (queuetail q) xs ys (rw (← place.parts) h.chain) in
    let l = link t pid (last_of q xs) (head_of ys (queuetail q)) in
    rw (good_qid t q ps h, live, Chain-first t q (queuetail q) ps h.chain, walk, prev)
      (keys-IsQueue l (set_key l pid key) r rs (λ c. (ground arith, ground arith))
        (link-other t q r pid xs ys rs (rw (← place.parts) h) o (rw (← place.parts) apart)
          (good_pid p pid live) f))

pub dequeue-keys : (t : Queuetab) (q c : ℕ) → ((dequeue t q).0 c).qkey ≡ (t c).qkey
unfolding dequeue getfirst getitem
dequeue-keys t q c = ground arith

Disjoint-drop : (y : ℕ) (xs ys : List ℕ) → Disjoint xs (y ∷ ys) → Fresh y xs × Disjoint xs ys
Disjoint-drop y [] ys d = (tt, tt)
Disjoint-drop y (x ∷ xs) ys d =
    let r = Disjoint-drop y xs ys d.1 in ((sym_ne d.0.0, r.0), (d.0.1, r.1))

pub Disjoint-sym : (xs ys : List ℕ) → Disjoint xs ys → Disjoint ys xs
Disjoint-sym xs [] d = tt
Disjoint-sym xs (y ∷ ys) d = let r = Disjoint-drop y xs ys d in (r.0, Disjoint-sym xs ys r.1)

pub Apart-sym : (q r : ℕ) (ps rs : List ℕ) → Apart q ps r rs → Apart r rs q ps
Apart-sym q r ps rs a = record {
  heads = sym_ne a.heads;
  tails = sym_ne a.crossed;
  crossed = sym_ne a.tails;
  procs = Disjoint-sym ps rs a.procs;
}

pub Sorted-same :
    (t t' : Queuetab) (xs : List ℕ)
    → ((c : ℕ) → (t' c).qkey ≡ (t c).qkey)
    → Sorted t xs
    → Sorted t' xs
Sorted-same t t' [] same s = tt
Sorted-same t t' (x ∷ []) same s = tt
Sorted-same t t' (x ∷ y ∷ ys) same s = (rw (same x, same y) s.0, Sorted-same t t' (y ∷ ys) same s.1)

-- A process that leaves one list for the other.
pub Disjoint-move :
    (x : ℕ) (ss xs ys : List ℕ) → Fresh x ss → Disjoint ss (xs ++ ys) → Disjoint ss (xs ++ x ∷ ys)
Disjoint-move x [] xs ys f d = tt
Disjoint-move x (s ∷ ss) xs ys f d =
    (Fresh-join s x xs ys (sym_ne f.0) d.0, Disjoint-move x ss xs ys f.1 d.1)

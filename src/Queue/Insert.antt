-- ===== src/Queue/Insert.antt =====
-- `insert` against its list operation.
use os_demand_paging.Queue.Order.{insert_walk-Place, length-IsQueue}
use os_demand_paging.Queue.Chain.{Fresh, last_of, head_of, Chain-before, Chain-first}
use os_demand_paging.Queue.Refine.{IsQueue, keys-IsQueue, link-IsQueue, good_qid, good_pid}
use os_demand_paging.Queue.Order.{Sorted, FirstBelow, AtLeast, Place, Inserted}
use os_demand_paging.Process.{Procent, nproc, isbadpid}
use os_demand_paging.Queue.{Queuetab, insert, link, Procent, set_key, queuetail, minkey, nqent}
use os_demand_paging.Base.{
  [], ◌∷◌, Table, ℕ, List, ◌≢◌, ◌≡◌, arith, ◌<◌, sym_ne, ◌++◌, false, ◌^◌, ok,
}

pub Sorted-tail : (t : Queuetab) (x : ℕ) (xs : List ℕ) → Sorted t (x ∷ xs) → Sorted t xs
Sorted-tail t x [] s = tt
Sorted-tail t x (y ∷ ys) s = s.1

module _ (t t' : Queuetab) (pid key : ℕ) (same : (c : ℕ) → c ≢ pid → (t' c).qkey ≡ (t c).qkey) where
  Sorted-keep : (xs : List ℕ) → Fresh pid xs → Sorted t xs → Sorted t' xs
  Sorted-keep [] f s = tt
  Sorted-keep (x ∷ []) f s = tt
  Sorted-keep (x ∷ y ∷ ys) f s =
      (rw (same x (sym_ne f.0), same y (sym_ne f.1.0)) s.0, Sorted-keep (y ∷ ys) f.1 s.1)

  module _ (set : (t' pid).qkey ≡ key) where
    Sorted-behind :
        (ys : List ℕ) → Fresh pid ys → FirstBelow t key ys → Sorted t ys → Sorted t' (pid ∷ ys)
    Sorted-behind [] f b s = tt
    Sorted-behind (y ∷ ys) f b s =
        (rw (set, same y (sym_ne f.0)) (ground (arith, b)), Sorted-keep (y ∷ ys) f s)

    pub Sorted-Inserted :
        (xs ys : List ℕ)
        → Fresh pid (xs ++ ys)
        → AtLeast t key xs
        → FirstBelow t key ys
        → Sorted t (xs ++ ys)
        → Sorted t' (xs ++ pid ∷ ys)
    Sorted-Inserted [] ys f a b s = Sorted-behind ys f b s
    Sorted-Inserted (x ∷ []) ys f a b s =
        (rw (set, same x (sym_ne f.0)) a.0, Sorted-behind ys f.1 b (Sorted-tail t x ys s))
    Sorted-Inserted (x ∷ y ∷ xs) ys f a b s = (
      rw (same x (sym_ne f.0), same y (sym_ne f.1.0)) s.0,
      Sorted-Inserted (y ∷ xs) ys f.1 a.1 b s.1,
    )

pub link-keys :
    (t : Queuetab) (pid p n key c : ℕ)
    → c ≢ pid
    → (set_key (link t pid p n) pid key c).qkey ≡ (t c).qkey
unfolding link
link-keys t pid p n key c h = ground arith

placed-Inserted :
    (t : Queuetab) (q pid key : ℕ) (ps xs ys : List ℕ)
    → IsQueue t q ps
    → Sorted t ps
    → pid < nproc
    → Fresh pid ps
    → Place t key ps xs ys
    → Inserted t q pid key ps
        (set_key (link t pid (last_of q xs) (head_of ys (queuetail q))) pid key)
placed-Inserted t q pid key ps xs ys h s lt f place =
    let l = link t pid (last_of q xs) (head_of ys (queuetail q)) in
    let f' : Fresh pid (xs ++ ys) = rw (← place.parts) f in
    record {
      xs = xs;
      ys = ys;
      place = place;
      queue =
          keys-IsQueue l (set_key l pid key) q (xs ++ pid ∷ ys) (λ c. (ground arith, ground arith))
            (link-IsQueue t q pid xs ys (rw (← place.parts) h) lt f');
      key_set = ground arith;
      keys = λ c n. link-keys t pid (last_of q xs) (head_of ys (queuetail q)) key c n;
      sorted =
          Sorted-Inserted t (set_key l pid key) pid key
            (λ c n. link-keys t pid (last_of q xs) (head_of ys (queuetail q)) key c n)
            (ground arith) xs ys f' place.before place.behind (rw (← place.parts) s);
    }

-- `insert` of a live process that is not in the queue, under a key above the least one, puts it
-- behind all processes with its key or a larger one and in front of the first with a smaller key:
-- the others stay in their order with their keys, and the sorted queue stays sorted. The walk
-- needs no more rounds than it is given.
pub insert-Inserted :
    (p : Table Procent) (t : Queuetab) (q pid key : ℕ) (ps : List ℕ)
    → IsQueue t q ps
    → Sorted t ps
    → (t (queuetail q)).qkey ≡ minkey
    → isbadpid p pid ≡ false
    → Fresh pid ps
    → key < 2 ^ 32
    → key ≢ minkey
    → (t' : Queuetab) × (insert p t pid q key ≡ (t', ok)) × Inserted t q pid key ps t'
unfolding insert
insert-Inserted p t q pid key ps h s tail live f lt above =
    let (xs, ys, place, walk) =
      insert_walk-Place t key (queuetail q) nqent q ps h.chain (rw tail (ground arith))
        (omega (arith, length-IsQueue t q ps h)) in
    let prev : (t (head_of ys (queuetail q))).qprev ≡ last_of q xs =
      Chain-before t q (queuetail q) xs ys (rw (← place.parts) h.chain) in
    (
      set_key (link t pid (last_of q xs) (head_of ys (queuetail q))) pid key,
      rw (good_qid t q ps h, live, Chain-first t q (queuetail q) ps h.chain, walk, prev),
      placed-Inserted t q pid key ps xs ys h s (good_pid p pid live) f place,
    )

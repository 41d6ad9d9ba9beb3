-- ===== src/Queue/Link.antt =====
-- The writes that put a process into a chain, and take it out.
use os_demand_paging.Queue.Chain.{Fresh-head_of, Fresh-split, Chain-at}
use os_demand_paging.Queue.Chain.{
  Relinks, Chain, last_of, head_of, Distinct, Fresh, Chain-keep, Fresh-last_of, Fresh-head_of,
}
use os_demand_paging.Queue.{Queuetab, getitem, link}
use os_demand_paging.Base.{[], ◌∷◌, ℕ, List, ◌≡◌, ◌≢◌, arith, ◌++◌, sym_ne, ◌∙◌}

pub link-Relinks : (t : Queuetab) (pid p n : ℕ) → Relinks t (link t pid p n) p n pid
unfolding link
link-Relinks t pid p n = record { nexts = λ c hp he. ground arith; prevs = λ c hn he. ground arith }

-- The four links that the writes make.
link-new :
    (t : Queuetab) (pid p n : ℕ)
    → pid ≢ p
    → pid ≢ n
    → (((link t pid p n) p).qnext ≡ pid)
      × (((link t pid p n) n).qprev ≡ pid)
      × (((link t pid p n) pid).qnext ≡ n)
      × (((link t pid p n) pid).qprev ≡ p)
unfolding link
link-new t pid p n hp hn = (ground arith, ground arith, ground arith, ground arith)

-- The process is put between `xs` and `ys`.
pub link-Chain :
    (t : Queuetab) (a b pid : ℕ) (xs ys : List ℕ)
    → Chain t a (xs ++ ys) b
    → Distinct (xs ++ ys)
    → (a ≢ b) × Fresh a (xs ++ ys)
    → Fresh b (xs ++ ys)
    → (pid ≢ a) × (pid ≢ b) × Fresh pid (xs ++ ys)
    → Chain (link t pid (last_of a xs) (head_of ys b)) a (xs ++ pid ∷ ys) b
link-Chain t a b pid [] [] c d ha hb hp =
    let w = link-new t pid a b hp.0 hp.1 in (w.0, w.3, (w.2, w.1))
link-Chain t a b pid [] (y ∷ ys) c d ha hb hp =
    let w = link-new t pid a y hp.0 hp.2.0 in
    let rest =
      Chain-keep t (link t pid a y) a y pid y b ys (link-Relinks t pid a y) ha.1 (sym_ne hb.0, d.0)
        (hp.2.0, hp.1, hp.2.1) c.2 in
    (w.0, w.3, (w.2, w.1, rest))
link-Chain t a b pid (x ∷ xs) ys c d ha hb hp =
    let r = link-Relinks t pid (last_of x xs) (head_of ys b) in
    (
      r.nexts a (Fresh-last_of a x xs ys ha.1.0 ha.1.1) (sym_ne hp.0) ∙ c.0,
      r.prevs x (Fresh-head_of x b xs ys (sym_ne hb.0) d.0) (sym_ne hp.2.0) ∙ c.1,
      link-Chain t x b pid xs ys c.2 d.1 (sym_ne hb.0, d.0) hb.1 (hp.2.0, hp.1, hp.2.1),
    )

-- `getitem`: the neighbours are linked to each other.
pub getitem-Relinks :
    (t : Queuetab) (pid : ℕ) → Relinks t (getitem t pid).0 (t pid).qprev (t pid).qnext pid
unfolding getitem
getitem-Relinks t pid = record { nexts = λ c hp he. ground arith; prevs = λ c hn he. ground arith }

getitem-new :
    (t : Queuetab) (pid : ℕ)
    → (((getitem t pid).0 (t pid).qprev).qnext ≡ (t pid).qnext)
      × (((getitem t pid).0 (t pid).qnext).qprev ≡ (t pid).qprev)
unfolding getitem
getitem-new t pid = (ground arith, ground arith)

unlink-Chain :
    (t t' : Queuetab) (a b pid : ℕ) (xs ys : List ℕ)
    → Relinks t t' (last_of a xs) (head_of ys b) pid
    → ((t' (last_of a xs)).qnext ≡ head_of ys b) × ((t' (head_of ys b)).qprev ≡ last_of a xs)
    → Chain t a (xs ++ pid ∷ ys) b
    → Distinct (xs ++ pid ∷ ys)
    → (a ≢ b) × Fresh a (xs ++ pid ∷ ys)
    → Fresh b (xs ++ pid ∷ ys)
    → Chain t' a (xs ++ ys) b
unlink-Chain t t' a b pid [] [] r w c d ha hb = w
unlink-Chain t t' a b pid [] (y ∷ ys) r w c d ha hb = (
  w.0,
  w.1,
  Chain-keep t t' a y pid y b ys r ha.1.1 (sym_ne hb.1.0, d.1.0) (d.0.0, sym_ne hb.0, d.0.1) c.2.2,
)
unlink-Chain t t' a b pid (x ∷ xs) ys r w c d ha hb =
    let fa = Fresh-split a pid xs ys ha.1.1 in
    let fx = Fresh-split x pid xs ys d.0 in
    (
      r.nexts a (Fresh-last_of a x xs ys ha.1.0 fa.1) fa.0 ∙ c.0,
      r.prevs x (Fresh-head_of x b xs ys (sym_ne hb.0) fx.1) fx.0 ∙ c.1,
      unlink-Chain t t' x b pid xs ys r w c.2 d.1 (sym_ne hb.0, d.0) hb.1,
    )

-- The process is taken from between `xs` and `ys`.
pub getitem-Chain :
    (t : Queuetab) (a b pid : ℕ) (xs ys : List ℕ)
    → Chain t a (xs ++ pid ∷ ys) b
    → Distinct (xs ++ pid ∷ ys)
    → (a ≢ b) × Fresh a (xs ++ pid ∷ ys)
    → Fresh b (xs ++ pid ∷ ys)
    → Chain (getitem t pid).0 a (xs ++ ys) b
getitem-Chain t a b pid xs ys c d ha hb =
    let (next, prev) = Chain-at t a b pid xs ys c in
    unlink-Chain t (getitem t pid).0 a b pid xs ys (rw (← prev, ← next) (getitem-Relinks t pid))
      (rw (← prev, ← next) (getitem-new t pid)) c d ha hb

-- ===== src/Port/Nodes.antt =====
-- The list of messages of a port.
use mathlib.Core.Path.{subst}
use native.Mathlib.Decide.{ℕ_discrete}
use os_demand_paging.Paging.Entry.{Mem}
use os_demand_paging.Queue.Chain.{Fresh, Distinct}
use os_demand_paging.Base.{
  refl, [], ◌∷◌, ◌++◌, ℕ, ◌≡◌, ◌+◌, ◌<◌, ◌≢◌, ◌/◌, ◌∙◌, List, ap, ◌%◌, sym, ◌^◌,
}

-- A node is at a multiple of 8, and not NULL.
abbrev pub IsNode : ℕ → Type 0
IsNode n = (n % 8 ≡ 0) × (0 < n) × (n + 8 < 2 ^ 32)

abbrev pub AllNodes : List ℕ → Type 0
AllNodes [] = Unit {0}
AllNodes (n ∷ ns) = IsNode n × AllNodes ns

-- The links from `n` through `ns` end at `tail`.
abbrev pub Seg : Mem → ℕ → List ℕ → ℕ → Type 0
Seg m n [] tail = tail ≡ n
Seg m n (x ∷ ns) tail = (m (n / 4 + 1) ≡ x) × Seg m x ns tail

abbrev pub Nodes : Mem → ℕ → ℕ → List ℕ → Type 0
Nodes m head tail [] = (head ≡ 0) × (tail ≡ 0)
Nodes m head tail (n ∷ ns) = (head ≡ n) × Seg m n ns tail

-- The messages of the nodes.
unfoldable pub messages : Mem → List ℕ → List ℕ
messages m [] = []
messages m (n ∷ ns) = m (n / 4) ∷ messages m ns

pub Seg-tail : (m : Mem) (n tail : ℕ) (ns : List ℕ) → Seg m n ns tail → ¬ Fresh tail (n ∷ ns)
Seg-tail m n tail [] s f = f.0 s
Seg-tail m n tail (x ∷ ns) s f = Seg-tail m x tail ns s.1 f.1

-- A list whose nodes keep their messages.
pub messages-keep :
    (m m' : Mem) (ns : List ℕ)
    → ((x : ℕ) → ¬ Fresh x ns → m' (x / 4) ≡ m (x / 4))
    → messages m' ns ≡ messages m ns
unfolding messages
messages-keep m m' [] same = refl
messages-keep m m' (n ∷ ns) same =
    rw (same n (λ f. f.0 refl))
      (ap (λ zs. m (n / 4) ∷ zs) (messages-keep m m' ns (λ x h. same x (λ f. h f.1))))

pub messages-append :
    (m : Mem) (ns : List ℕ) (f : ℕ) → messages m (ns ++ f ∷ []) ≡ messages m ns ++ m (f / 4) ∷ []
unfolding messages
messages-append m [] f = refl
messages-append m (n ∷ ns) f = ap (λ zs. m (n / 4) ∷ zs) (messages-append m ns f)

-- A node behind the last.
pub Seg-append :
    (m m' : Mem) (n tail f : ℕ) (ns : List ℕ)
    → Seg m n ns tail
    → Distinct (n ∷ ns)
    → ((x : ℕ) → ¬ Fresh x (n ∷ ns) → x ≢ tail → m' (x / 4 + 1) ≡ m (x / 4 + 1))
    → m' (tail / 4 + 1) ≡ f
    → Seg m' n (ns ++ f ∷ []) f
Seg-append m m' n tail f [] s d same link = (ap (λ t. m' (t / 4 + 1)) (sym s) ∙ link, refl)
Seg-append m m' n tail f (x ∷ ns) s d same link = (
  same n (λ g. g.0 refl) (λ e. Seg-tail m x tail ns s.1 (subst (λ z. Fresh z (x ∷ ns)) e d.0))
      ∙ s.0,
  Seg-append m m' x tail f ns s.1 d.1 (λ z h. same z (λ g. h g.1)) link,
)

-- Links that stay.
pub Seg-keep :
    (m m' : Mem) (n tail : ℕ) (ns : List ℕ)
    → Seg m n ns tail
    → ((x : ℕ) → ¬ Fresh x (n ∷ ns) → m' (x / 4 + 1) ≡ m (x / 4 + 1))
    → Seg m' n ns tail
Seg-keep m m' n tail [] s same = s
Seg-keep m m' n tail (x ∷ ns) s same =
    (same n (λ g. g.0 refl) ∙ s.0, Seg-keep m m' x tail ns s.1 (λ z h. same z (λ g. h g.1)))

pub AllNodes-at : (x : ℕ) (ns : List ℕ) → AllNodes ns → ¬ Fresh x ns → IsNode x
AllNodes-at x [] a h = absurd (h tt)
AllNodes-at x (n ∷ ns) a h = elim (ℕ_discrete x n) [
  | yes e ↦ subst IsNode (sym e) a.0
  | no e ↦ AllNodes-at x ns a.1 (λ f. h (e, f))
]

pub AllNodes-append : (ns : List ℕ) (f : ℕ) → AllNodes ns → IsNode f → AllNodes (ns ++ f ∷ [])
AllNodes-append [] f a i = (i, tt)
AllNodes-append (n ∷ ns) f a i = (a.0, AllNodes-append ns f a.1 i)

-- ===== src/Kernel/Keeps.antt =====
-- What code keeps of the kernel's state when other processes keep it too.
use os_demand_paging.Base.{Bool, true, false, if◌then◌else◌}
use os_demand_paging.Kernel.{Kernel, Run, done, switch, halt, and_then, Code}

-- The property holds whenever the code gives up the processor and when it ends, as long as it holds
-- whenever the code is resumed.
pub data Keeps {ℓ} {A : Type 0} (P : Kernel → Type ℓ) : Run A → Type ℓ where
  ended : (k : Kernel) (a : A) → P k → Keeps P (done k a)
  resumes :
      (k : Kernel) (next : Kernel → Run A)
      → P k
      → ((k' : Kernel) → P k' → Keeps P (next k'))
      → Keeps P (switch k next)
  halted : (k : Kernel) → P k → Keeps P (halt k)

-- Code keeps a property that its parts keep.
pub and_then-Keeps {ℓ} :
    {A B : Type 0} {P : Kernel → Type ℓ} {r : Run A} {f : A → Code B}
    → Keeps P r
    → ((a : A) (k : Kernel) → P k → Keeps P (f a k))
    → Keeps P (and_then r f)
and_then-Keeps (ended k a h) g = g a k h
and_then-Keeps (resumes k next h rest) g = resumes k _ h (λ k' p. and_then-Keeps (rest k' p) g)
and_then-Keeps (halted k h) g = halted k h

pub if-Keeps {ℓ} :
    {A : Type 0} {P : Kernel → Type ℓ} {r s : Run A} (b : Bool)
    → Keeps P r
    → Keeps P s
    → Keeps P (if b then r else s)
if-Keeps true g h = g
if-Keeps false g h = h

-- ===== src/Base/Tables.antt =====
-- C arrays as functions of the index. A write changes one entry.
use Prim.Native.Nat.{ℕ}
use mathlib.Core.Path.{◌≡◌}
use mathlib.Core.Logic.{◌≢◌}
use os_demand_paging.Base.Tests.{◌==◌, if◌then◌else◌, ==_refl, ne→==}

abbrev pub Table {ℓ} : Type ℓ → Type ℓ
Table A = ℕ → A

module _ {ℓ} {A : Type ℓ} where
  -- `t[i] = v`
  abbrev pub put : Table A → ℕ → A → Table A
  put t i v = λ j. if j == i then v else t j

  pub put_self : (t : Table A) (i : ℕ) (v : A) → put t i v i ≡ v
  put_self t i v = rw (==_refl i)

  pub put_ne : (t : Table A) (i j : ℕ) (v : A) → j ≢ i → put t i v j ≡ t j
  put_ne t i j v h = rw (ne→== j i h)

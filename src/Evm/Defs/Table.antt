-- ===== src/Evm/Defs/Table.antt =====
-- The map `opm` of internal/evm/ops.go: computeOpsMap does not panic, and what its checks give.
use geas.Prelude.{
  List, [], ◌∷◌, ◌≡◌, refl, ◌∙◌, ap, String, false, some, empty, Map, insert, eq_iff, arith,
  string_eq,
}
use mathlib.Core.Path.{subst}
use geas.Evm.Op.{Op}
use geas.Evm.Defs.{opm, compute_ops_map, built, has_duplicate}
use geas.Evm.Oplist.{oplist}

built-injective : {a b : Map String Op} → built a ≡ built b → a ≡ b
built-injective e = cc

-- Every entry of the map stands under its name.
abbrev pub IsKeyed : Map String Op → Type 0
IsKeyed m = (n : String) (o : Op) → m n ≡ some o → o.name ≡ n

compute_ops_map-IsKeyed :
    (l : List Op) (m m' : Map String Op) → IsKeyed m → compute_ops_map l m ≡ built m' → IsKeyed m'
unfolding compute_ops_map
compute_ops_map-IsKeyed [] m m' k h = subst IsKeyed (built-injective h) k
compute_ops_map-IsKeyed (o ∷ l) m m' k h =
    compute_ops_map-IsKeyed l (insert o.name o m) m'
      (λ n o' e. ground (arith, eq_iff o.name n, k n o')) (ground arith)

-- No panic: the list of instructions has no name twice, and no instruction has an input twice.
pub compute_ops_map-oplist : compute_ops_map oplist empty ≡ built opm
unfolding opm compute_ops_map oplist geas.Evm.Defs.has_duplicate
compute_ops_map-oplist = refl

pub opm-IsKeyed : IsKeyed opm
opm-IsKeyed =
    compute_ops_map-IsKeyed oplist empty opm (λ n o e. absurd (ground arith)) compute_ops_map-oplist

compute_ops_map-distinct :
    (l : List Op) (m m' : Map String Op)
    → ((n : String) (o : Op) → m n ≡ some o → has_duplicate o.inputs ≡ false)
    → compute_ops_map l m ≡ built m'
    → (n : String) (o : Op) → m' n ≡ some o
    → has_duplicate o.inputs ≡ false
unfolding compute_ops_map
compute_ops_map-distinct [] m m' k h n o e =
    k n o (ap (λ (f : Map String Op). f n) (built-injective h) ∙ e)
compute_ops_map-distinct (p ∷ l) m m' k h n o e =
    compute_ops_map-distinct l (insert p.name p m) m' (λ j o' e'. ground (arith, k j o'))
      (ground arith) n o e

pub opm-distinct : (n : String) (o : Op) → opm n ≡ some o → has_duplicate o.inputs ≡ false
opm-distinct =
    compute_ops_map-distinct oplist empty opm (λ n o e. absurd (ground arith))
      compute_ops_map-oplist

-- ===== src/Evm/InstructionSet/Consistent.antt =====
-- The two maps of a resolved instruction set are inverse to each other.
use geas.Prelude.{
  ℕ, zero, suc, List, [], ◌∷◌, Option, none, some, String, ◌≡◌, ap, arith, ◌==◌, eq_iff, string_eq,
  nat_eq, Map, length, All, Bool-cases, inl, inr, Option-cases,
}
use mathlib.Core.Path.{subst}
use geas.Evm.Op.{Op}
use geas.Evm.Defs.{InstructionSetDef, InstructionSet, contains}
use geas.Evm.InstructionSet.{
  Registry, ok, >>=-eq-ok, ◌>>=◌, remove_op, add_op, remove_ops, add_ops, apply_defs, lineage_loop,
  lineage, resolve_defs, empty_set, registered, canonical_name,
}

-- `by_name` and `by_code` hold the same instructions, each under its own name and its own code.
pub record IsConsistent (is : InstructionSet) : Type 0 where
  pub name_code :
      (n : String) (o : Op) → is.by_name n ≡ some o → (o.name ≡ n) × (is.by_code o.code ≡ some o)
  pub code_name :
      (c : ℕ) (o : Op) → is.by_code c ≡ some o → (o.code ≡ c) × (is.by_name o.name ≡ some o)

-- Every instruction comes from the map `m`, which knows it by its name.
abbrev pub IsFrom : Map String Op → Op → Type 0
IsFrom m o = m o.name ≡ some o

abbrev pub AllFrom : Map String Op → List (Option Op) → Type 0
AllFrom m [] = Unit
AllFrom m (none ∷ l) = AllFrom m l
AllFrom m (some o ∷ l) = IsFrom m o × AllFrom m l

pub record Inv (m : Map String Op) (is : InstructionSet) : Type 0 where
  pub consistent : IsConsistent is
  pub from : (n : String) (o : Op) → is.by_name n ≡ some o → IsFrom m o

abbrev pub DefFrom : Map String Op → InstructionSetDef → Type 0
DefFrom m def = AllFrom m def.added × AllFrom m def.removed

ok-injective {ℓ} : {A : Type ℓ} {a b : A} → ok a ≡ ok b → a ≡ b
ok-injective h = cc

module _ (m : Map String Op) where
  add_op-Inv :
      (o : Op) (is is' : InstructionSet) → IsFrom m o → Inv m is → add_op o is ≡ ok is' → Inv m is'
  unfolding add_op
  add_op-Inv o is is' f v h = record {
    consistent = record {
      name_code = λ n o' e. ground (arith, eq_iff o.name n, v.consistent.name_code n o');
      code_name = λ c o' e. ground (arith, eq_iff o.name o'.name, v.consistent.code_name c o');
    };
    from = λ n o' e. ground (arith, eq_iff o.name n, v.from n o');
  }

  -- What is found under the name of an instruction of `m` is that instruction.
  held :
      (o o' : Op) (is : InstructionSet)
      → IsFrom m o
      → Inv m is
      → is.by_name o.name ≡ some o'
      → o' ≡ o
  held o o' is f v e =
      let same = (v.consistent.name_code o.name o' e).0 in
      ground (arith, v.from o.name o' e, ap m same)

  remove_op-held :
      (def : InstructionSetDef) (o : Op) (is is' : InstructionSet)
      → IsFrom m o
      → Inv m is
      → remove_op def o is ≡ ok is'
      → (is.by_name o.name ≡ some o) × (is.by_code o.code ≡ some o)
  unfolding remove_op
  remove_op-held def o is is' f v h = elim (Option-cases (is.by_name o.name)) [
    | inl e ↦ absurd (ground arith)
    | inr (o', e) ↦
        let q : is.by_name o.name ≡ some o = rw (held o o' is f v e) at e in
        (q, (v.consistent.name_code o.name o q).1)
  ]

  remove_op-Inv :
      (def : InstructionSetDef) (o : Op) (is is' : InstructionSet)
      → IsFrom m o
      → Inv m is
      → remove_op def o is ≡ ok is'
      → Inv m is'
  unfolding remove_op
  remove_op-Inv def o is is' f v h =
      let both = remove_op-held def o is is' f v h in
      record {
        consistent = record {
          name_code = λ n o' e. ground (
            arith,
            eq_iff o.name n,
            v.consistent.name_code n o',
            v.consistent.code_name o.code o',
            both.0,
            both.1,
          );
          code_name = λ c o' e.
              ground (arith, eq_iff o.name o'.name, v.consistent.code_name c o', both.0, both.1);
        };
        from = λ n o' e. ground (arith, eq_iff o.name n, v.from n o');
      }

  add_ops-Inv :
      (l : List (Option Op)) (is is' : InstructionSet)
      → AllFrom m l
      → Inv m is
      → add_ops l is ≡ ok is'
      → Inv m is'
  unfolding add_ops
  add_ops-Inv [] is is' f v h = subst (Inv m) (ok-injective h) v
  add_ops-Inv (none ∷ l) is is' f v h = absurd (ground arith)
  add_ops-Inv (some o ∷ l) is is' f v h =
      let (mid, e, rest) = >>=-eq-ok (add_op o is) (add_ops l) h in
      add_ops-Inv l mid is' f.1 (add_op-Inv o is mid f.0 v e) rest

  remove_ops-Inv :
      (def : InstructionSetDef) (l : List (Option Op)) (is is' : InstructionSet)
      → AllFrom m l
      → Inv m is
      → remove_ops def l is ≡ ok is'
      → Inv m is'
  unfolding remove_ops
  remove_ops-Inv def [] is is' f v h = subst (Inv m) (ok-injective h) v
  remove_ops-Inv def (none ∷ l) is is' f v h = absurd (ground arith)
  remove_ops-Inv def (some o ∷ l) is is' f v h =
      let (mid, e, rest) = >>=-eq-ok (remove_op def o is) (remove_ops def l) h in
      remove_ops-Inv def l mid is' f.1 (remove_op-Inv def o is mid f.0 v e) rest

  apply_defs-Inv :
      (defs : List InstructionSetDef) (is is' : InstructionSet)
      → All (DefFrom m) defs
      → Inv m is
      → apply_defs defs is ≡ ok is'
      → Inv m is'
  unfolding apply_defs
  apply_defs-Inv [] is is' f v h = subst (Inv m) (ok-injective h) v
  apply_defs-Inv (def ∷ defs) is is' f v h =
      let (mid, e, last) = >>=-eq-ok (remove_ops def def.removed is >>= add_ops def.added) _ h in
      let (less, e', e'') = >>=-eq-ok (remove_ops def def.removed is) (add_ops def.added) e in
      apply_defs-Inv defs mid is' f.1
        (add_ops-Inv def.added less mid f.0.0 (remove_ops-Inv def def.removed is less f.0.1 v e')
          e'')
        last

-- A definition in the chain of a definition of the registry is in the registry too.
module _ (P : InstructionSetDef → Type 0) where
  abbrev pub Holds : Registry → Type 0
  Holds [] = Unit
  Holds ((key, def) ∷ reg) = P def × Holds reg

  pub registered-Holds :
      (reg : Registry) (name : String) (def : InstructionSetDef)
      → Holds reg
      → registered reg name ≡ some def
      → P def
  unfolding registered
  registered-Holds [] name def v h = absurd (ground arith)
  registered-Holds ((key, d) ∷ reg) name def v h = elim (Bool-cases (key == name)) [
    | inl e ↦ subst P (ground arith) v.0
    | inr e ↦ registered-Holds reg name def v.1 (ground arith)
  ]

  lineage_loop-All :
      (reg : Registry) (fuel : ℕ) (visited : List String) (lin : List InstructionSetDef)
      (def : InstructionSetDef) (defs : List InstructionSetDef)
      → Holds reg
      → P def
      → All P lin
      → lineage_loop reg fuel visited lin def ≡ ok defs
      → All P defs
  unfolding lineage_loop
  lineage_loop-All reg zero visited lin def defs v p l h = absurd (ground arith)
  lineage_loop-All reg (suc fuel) visited lin def defs v p l h =
      elim (Bool-cases (contains visited (canonical_name def))) [
        | inl e ↦ absurd (ground arith)
        | inr e ↦ elim (Bool-cases (def.parent == "")) [
          | inl e' ↦ subst (All P) (ok-injective (rw (e, e') at h)) (p, l)
          | inr e' ↦ elim (Option-cases (registered reg def.parent)) [
            | inl e'' ↦ absurd (ground arith)
            | inr (parent, e'') ↦
                lineage_loop-All reg fuel (canonical_name def ∷ visited) (def ∷ lin) parent defs v
                  (registered-Holds reg def.parent parent v e'') (p, l) (rw (e, e', e'') at h)
          ]
        ]
      ]

  pub lineage-All :
      (reg : Registry) (def : InstructionSetDef) (defs : List InstructionSetDef)
      → Holds reg
      → P def
      → lineage reg def ≡ ok defs
      → All P defs
  unfolding lineage
  lineage-All reg def defs v p h =
      lineage_loop-All reg (suc (suc (length reg))) [] [] def defs v p tt h

empty-Inv : (m : Map String Op) (name : String) → Inv m (empty_set name)
empty-Inv m name = record {
  consistent = record {
    name_code = λ n o e. absurd (ground arith);
    code_name = λ c o e. absurd (ground arith);
  };
  from = λ n o e. absurd (ground arith);
}

-- Whatever the registry, as long as its instructions all come from one map keyed by their names, a
-- set that resolves is consistent.
pub resolve_defs-IsConsistent :
    (m : Map String Op) (reg : Registry) (def : InstructionSetDef) (name : String)
    (is : InstructionSet)
    → Holds (DefFrom m) reg
    → DefFrom m def
    → resolve_defs reg def (empty_set name) ≡ ok is
    → IsConsistent is
unfolding resolve_defs
resolve_defs-IsConsistent m reg def name is v f h =
    let (defs, e, applied) = >>=-eq-ok (lineage reg def) _ h in
    (apply_defs-Inv m defs (empty_set name) is (lineage-All (DefFrom m) reg def defs v f e)
      (empty-Inv m name) applied).consistent

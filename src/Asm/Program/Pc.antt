-- ===== src/Asm/Program/Pc.antt =====
-- What computePC assigns: every instruction stands where the ones before it end.
use geas.Prelude.{ℕ, ◌+◌, ◌≡◌, refl, List, [], ◌∷◌}
use geas.Asm.Program.{Elem, inst, section_start, section_end, compute_pc, encoded_size}

module _ {E : Type 0} where
  abbrev pub IsPlaced : ℕ → List (Elem E) → Type 0
  IsPlaced pc [] = Unit
  IsPlaced pc (inst i ∷ elems) = (i.pc ≡ pc) × IsPlaced (pc + encoded_size i) elems
  IsPlaced pc (section_start s at_pc ∷ elems) = (at_pc ≡ pc) × IsPlaced pc elems
  IsPlaced pc (section_end s at_pc ∷ elems) = (at_pc ≡ pc) × IsPlaced pc elems

  pub compute_pc-IsPlaced : (pc : ℕ) (elems : List (Elem E)) → IsPlaced pc (compute_pc pc elems)
  unfolding compute_pc encoded_size
  compute_pc-IsPlaced pc [] = tt
  compute_pc-IsPlaced pc (inst i ∷ elems) = (refl, compute_pc-IsPlaced (pc + encoded_size i) elems)
  compute_pc-IsPlaced pc (section_start s o ∷ elems) = (refl, compute_pc-IsPlaced pc elems)
  compute_pc-IsPlaced pc (section_end s o ∷ elems) = (refl, compute_pc-IsPlaced pc elems)

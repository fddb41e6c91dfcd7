-- ===== src/Asm/Output/Encoding.antt =====
-- generateOutput on the instructions that the earlier phases hand over: no panic arises, and the
-- output is the encodings of the instructions one after the other.
use mathlib.Core.Path.{subst}
use geas.Prelude.{
  ℕ, ◌+◌, ◌≤◌, ◌≡◌, refl, ap, ◌∙◌, sym, true, false, some, List, [], ◌∷◌, ◌++◌, ◌==◌, nat_eq,
  string_eq, length, replicate, arith, length-append, length-replicate,
}
use geas.Evm.Op.{Op}
use geas.Evm.Defs.{InstructionSet}
use geas.Evm.InstructionSet.{op_by_name}
use geas.Asm.Program.{
  Instruction, Elem, inst, section_start, section_end, instructions, is_bytes, is_push,
  encoded_size,
}
use geas.Asm.Program.Pc.{IsPlaced}
use geas.Asm.Output.{
  Output, Emitted, emitted, bug, emit, generate_from, generate_output, no_output, with_output,
  resolve_push,
}

append_nil {ℓ} : {A : Type ℓ} (xs : List A) → xs ++ [] ≡ xs
append_nil [] = refl
append_nil (x ∷ xs) = ap (◌∷◌ x) (append_nil xs)

append_assoc {ℓ} : {A : Type ℓ} (xs ys zs : List A) → (xs ++ ys) ++ zs ≡ xs ++ (ys ++ zs)
append_assoc [] ys zs = refl
append_assoc (x ∷ xs) ys zs = ap (◌∷◌ x) (append_assoc xs ys zs)

-- One instruction at its PC adds its encoding.
abbrev Adds : Emitted → Output → List ℕ → Type 0
Adds (bug b) out bs = ⊥
Adds (emitted after) out bs = (after.bytes ≡ out.bytes ++ bs) × (after.unknown ≡ out.unknown)

Adds-trans :
    (e : Emitted) (out mid : Output) (b more : List ℕ)
    → Adds (emitted mid) out b
    → Adds e mid more
    → Adds e out (b ++ more)
Adds-trans (bug _) out mid b more h rest = rest
Adds-trans (emitted after) out mid b more h rest =
    (rest.0 ∙ ap (λ x. x ++ more) h.0 ∙ append_assoc out.bytes b more, rest.1 ∙ h.1)

with_output-Adds :
    (e : Emitted) (next : Output → Emitted) (out : Output) (b more : List ℕ)
    → Adds e out b
    → ((mid : Output) → Adds (emitted mid) out b → Adds (next mid) mid more)
    → Adds (with_output e next) out (b ++ more)
with_output-Adds (bug _) next out b more h rest = h
with_output-Adds (emitted mid) next out b more h rest =
    Adds-trans (next mid) out mid b more h (rest mid h)

-- What generateOutput returns: no panic, no error, and these bytes.
abbrev pub Outputs : Emitted → List ℕ → Type 0
Outputs e bs = (out : Output) × (e ≡ emitted out) × (out.bytes ≡ bs) × (out.unknown ≡ [])

Adds-Outputs : (e : Emitted) (bs : List ℕ) → Adds e no_output bs → Outputs e bs
Adds-Outputs (bug _) bs h = elim h [ ]
Adds-Outputs (emitted out) bs h = (out, refl, h.0, h.1)

module _ {E : Type 0} where
  -- The encoding of an instruction with the given opcode, if its case has one: data, or an opcode
  -- and its operand in `data_size` bytes, big-endian.
  pub data Encodes (is : InstructionSet) (i : Instruction E) : List ℕ → Type 0 where
    raw : is_bytes i.op ≡ true → i.data_size ≡ length i.data_bytes → Encodes is i i.data_bytes
    push :
        (o : Op) (pad : ℕ)
        → is_bytes i.op ≡ false
        → is_push i.op ≡ true
        → (i.op == "") ≡ false
        → resolve_push is i.op i.data_size ≡ some o
        → i.data_size ≤ 32
        → pad + length i.data_bytes ≡ i.data_size
        → Encodes is i (o.code ∷ replicate pad 0 ++ i.data_bytes)
    plain :
        (o : Op)
        → is_bytes i.op ≡ false
        → is_push i.op ≡ false
        → (i.op == "") ≡ false
        → op_by_name is i.op ≡ some o
        → i.data_bytes ≡ []
        → i.data_size ≡ 0
        → Encodes is i (o.code ∷ [])
    immediate :
        (o : Op) (imm : ℕ)
        → is_bytes i.op ≡ false
        → is_push i.op ≡ false
        → (i.op == "") ≡ false
        → op_by_name is i.op ≡ some o
        → o.has_immediate ≡ true
        → i.data_bytes ≡ imm ∷ []
        → i.data_size ≡ 1
        → Encodes is i (o.code ∷ imm ∷ [])
    nothing :
        is_bytes i.op ≡ false
        → is_push i.op ≡ false
        → (i.op == "") ≡ true
        → i.data_bytes ≡ []
        → i.data_size ≡ 0
        → Encodes is i []

  length-Encodes :
      (is : InstructionSet) (i : Instruction E) (bs : List ℕ)
      → Encodes is i bs
      → length bs ≡ encoded_size i
  unfolding encoded_size
  length-Encodes is i _ (raw b s) = ground arith
  length-Encodes is i _ (push o pad b p n r le s) =
      ground (arith, length-append (replicate pad 0) i.data_bytes, length-replicate {A = ℕ} pad 0)
  length-Encodes is i _ (plain o b p n r d s) = ground arith
  length-Encodes is i _ (immediate o imm b p n r h d s) = ground arith
  length-Encodes is i _ (nothing b p n d s) = ground arith

  emit-Adds :
      (is : InstructionSet) (i : Instruction E) (bs : List ℕ) (out : Output)
      → Encodes is i bs
      → length out.bytes ≡ i.pc
      → out.unknown ≡ []
      → Adds (emit is i out) out bs
  unfolding emit
  emit-Adds is i _ out (raw b s) at_pc none_unknown = ground arith
  emit-Adds is i _ out (push o pad b p n r le s) at_pc none_unknown = ground arith
  emit-Adds is i _ out (plain o b p n r d s) at_pc none_unknown = ground arith
  emit-Adds is i _ out (immediate o imm b p n r h d s) at_pc none_unknown = ground arith
  emit-Adds is i _ out (nothing b p n d s) at_pc none_unknown = ground (arith, append_nil out.bytes)

  -- The encodings of a list of instructions, one after the other.
  abbrev pub EncodesAll : InstructionSet → List (Instruction E) → List ℕ → Type 0
  EncodesAll is [] bs = bs ≡ []
  EncodesAll is (i ∷ rest) bs =
      (b : List ℕ) × (more : List ℕ) × (bs ≡ b ++ more) × Encodes is i b × EncodesAll is rest more

  end_pc :
      (is : InstructionSet) (i : Instruction E) (b : List ℕ) (out mid : Output)
      → Encodes is i b
      → mid.bytes ≡ out.bytes ++ b
      → length mid.bytes ≡ length out.bytes + encoded_size i
  end_pc is i b out mid enc h =
      ap length h
      ∙ length-append out.bytes b
      ∙ ap (◌+◌ (length out.bytes)) (length-Encodes is i b enc)

  -- The rest of the program starts where the output ends.
  generate_from-Adds :
      (is : InstructionSet) (elems : List (Elem E)) (bs : List ℕ) (out : Output)
      → EncodesAll is (instructions elems) bs
      → IsPlaced (length out.bytes) elems
      → out.unknown ≡ []
      → Adds (generate_from is (instructions elems) out) out bs
  unfolding instructions generate_from
  generate_from-Adds is [] bs out all placed known =
      (sym (append_nil out.bytes) ∙ ap (λ x. out.bytes ++ x) (sym all), refl)
  generate_from-Adds is (section_start s o ∷ elems) bs out all placed known =
      generate_from-Adds is elems bs out all placed.1 known
  generate_from-Adds is (section_end s o ∷ elems) bs out all placed known =
      generate_from-Adds is elems bs out all placed.1 known
  generate_from-Adds is (inst i ∷ elems) bs out (b, more, e, enc, all) placed known =
      subst (Adds _ out) (sym e) (
        with_output-Adds (emit is i out) _ out b more
          (emit-Adds is i b out enc (sym placed.0) known)
          λ mid h.
            generate_from-Adds is elems more mid all
              (subst (λ pc. IsPlaced pc elems) (sym (end_pc is i b out mid enc h.0)) placed.1)
              (h.1 ∙ known))

  -- If the instructions stand at their PCs and each has an encoding, then generateOutput does not
  -- panic, adds no error, and returns the encodings one after the other.
  pub generate_output-Outputs :
      (is : InstructionSet) (elems : List (Elem E)) (bs : List ℕ)
      → IsPlaced 0 elems
      → EncodesAll is (instructions elems) bs
      → Outputs (generate_output is (instructions elems)) bs
  unfolding generate_output
  generate_output-Outputs is elems bs placed all =
      Adds-Outputs _ bs (generate_from-Adds is elems bs no_output all placed refl)

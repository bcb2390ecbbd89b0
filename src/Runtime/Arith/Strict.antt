-- ===== src/Runtime/Arith/Strict.antt =====
-- runtime/cel_arith.c: what the frame of the binary kernels does on every operand, whatever they
-- compute.
use cel_spec_wasm.Prelude.{
  ℕ, ◌≡◌, refl, ap, sym, ◌∙◌, Bool, true, false, ◌||◌, not, Option, none, some, arith, ◌==◌,
  Option-cases, inl, inr,
}
use cel_spec_wasm.Runtime.Value.{CelValue, Arena, Memory, kind, absorb_3vl_binary, require_kinds}
use cel_spec_wasm.Runtime.Value.Merge.{special, cel_unknown_merge-cell, cel_unknown_merge-special}
use cel_spec_wasm.Runtime.Arith.{
  Machine, binary, Outcome, cel_int_add, cel_int_sub, cel_int_mul, cel_int_div, cel_int_mod,
  cel_uint_add, cel_uint_sub, cel_uint_mul, cel_uint_div, cel_uint_mod, cel_double_add,
  cel_double_sub, cel_double_mul, cel_double_div,
}

-- The binary kernels, by name.
pub data Kernel : Type 0 where
  int_add : Kernel
  int_sub : Kernel
  int_mul : Kernel
  int_div : Kernel
  int_mod : Kernel
  uint_add : Kernel
  uint_sub : Kernel
  uint_mul : Kernel
  uint_div : Kernel
  uint_mod : Kernel
  double_add : Kernel
  double_sub : Kernel
  double_mul : Kernel
  double_div : Kernel

abbrev pub operand_kind : Kernel → ℕ
operand_kind int_add = 2
operand_kind int_sub = 2
operand_kind int_mul = 2
operand_kind int_div = 2
operand_kind int_mod = 2
operand_kind uint_add = 3
operand_kind uint_sub = 3
operand_kind uint_mul = 3
operand_kind uint_div = 3
operand_kind uint_mod = 3
operand_kind double_add = 4
operand_kind double_sub = 4
operand_kind double_mul = 4
operand_kind double_div = 4

kinds_lem :
    (ka kb want : ℕ) (s : Bool)
    → ((not (ka == want) || not (kb == want)) ≡ true → s ≡ true)
    → s ≡ false
    → (ka ≡ want) × (kb ≡ want)
kinds_lem ka kb want true f h = ground arith
kinds_lem ka kb want false f h = ground (arith, f)

module _ (ar : Arena) (fp : Machine) where
  abbrev pub run_kernel : Kernel → Memory ar.State → ℕ → ℕ → ℕ → Memory ar.State
  run_kernel int_add = cel_int_add ar
  run_kernel int_sub = cel_int_sub ar
  run_kernel int_mul = cel_int_mul ar fp
  run_kernel int_div = cel_int_div ar
  run_kernel int_mod = cel_int_mod ar
  run_kernel uint_add = cel_uint_add ar
  run_kernel uint_sub = cel_uint_sub ar
  run_kernel uint_mul = cel_uint_mul ar
  run_kernel uint_div = cel_uint_div ar
  run_kernel uint_mod = cel_uint_mod ar
  run_kernel double_add = cel_double_add ar fp
  run_kernel double_sub = cel_double_sub ar fp
  run_kernel double_mul = cel_double_mul ar fp
  run_kernel double_div = cel_double_div ar fp

  -- Each kernel is the frame with an operation of its own.
  run_kernel-binary :
      (k : Kernel)
      → (op : CelValue → CelValue → Outcome) × (run_kernel k ≡ binary ar (operand_kind k) op)
  unfolding cel_int_add cel_int_sub cel_int_mul cel_int_div cel_int_mod cel_uint_add cel_uint_sub
      cel_uint_mul cel_uint_div cel_uint_mod cel_double_add cel_double_sub cel_double_mul
      cel_double_div
  run_kernel-binary int_add = (_, refl)
  run_kernel-binary int_sub = (_, refl)
  run_kernel-binary int_mul = (_, refl)
  run_kernel-binary int_div = (_, refl)
  run_kernel-binary int_mod = (_, refl)
  run_kernel-binary uint_add = (_, refl)
  run_kernel-binary uint_sub = (_, refl)
  run_kernel-binary uint_mul = (_, refl)
  run_kernel-binary uint_div = (_, refl)
  run_kernel-binary uint_mod = (_, refl)
  run_kernel-binary double_add = (_, refl)
  run_kernel-binary double_sub = (_, refl)
  run_kernel-binary double_mul = (_, refl)
  run_kernel-binary double_div = (_, refl)

  module _ (m : Memory ar.State) (out a b : ℕ) where
    binary-cell :
        (want : ℕ) (op : CelValue → CelValue → Outcome) (x : ℕ)
        → (x == out) ≡ false
        → (binary ar want op m out a b).cell x ≡ m.cell x
    unfolding binary absorb_3vl_binary require_kinds
    binary-cell want op x h = ground (arith, cel_unknown_merge-cell ar m out a b x h)

    -- Every binary kernel leaves all cells but its output as they are.
    pub kernel-cell :
        (k : Kernel) (x : ℕ) → (x == out) ≡ false → (run_kernel k m out a b).cell x ≡ m.cell x
    kernel-cell k x h =
        let (op, e) = run_kernel-binary k in rw e (binary-cell (operand_kind k) op x h)

    abbrev special_if_written : Option (Memory ar.State) → Bool
    special_if_written none = true
    special_if_written (some m') = special (m'.cell out)

    absorb-special : special_if_written (absorb_3vl_binary ar m out a b) ≡ true
    unfolding absorb_3vl_binary
    absorb-special = ground (arith, cel_unknown_merge-special ar m out a b)

    binary-mismatch :
        (want : ℕ) (op : CelValue → CelValue → Outcome)
        → (not (kind (m.cell a) == want) || not (kind (m.cell b) == want)) ≡ true
        → special ((binary ar want op m out a b).cell out) ≡ true
    unfolding binary require_kinds
    binary-mismatch want op h = elim (Option-cases (absorb_3vl_binary ar m out a b)) [
      | inl e ↦ rw (e, binary) (ground (arith, h))
      | inr (m', e) ↦ rw (e, binary) (ap special_if_written (sym e) ∙ absorb-special)
    ]

    binary-special :
        (want : ℕ) (op : CelValue → CelValue → Outcome)
        → special ((binary ar want op m out a b).cell out) ≡ false
        → (kind (m.cell a) ≡ want) × (kind (m.cell b) ≡ want)
    binary-special want op h = kinds_lem _ _ want _ (binary-mismatch want op) h

    -- When a binary kernel writes a value that is neither an error nor unknown, both its operands
    -- have the kernel's kind.
    pub kernel-kinds :
        (k : Kernel)
        → special ((run_kernel k m out a b).cell out) ≡ false
        → (kind (m.cell a) ≡ operand_kind k) × (kind (m.cell b) ≡ operand_kind k)
    kernel-kinds k h =
        let (op, e) = run_kernel-binary k in
        binary-special (operand_kind k) op (ap (λ f. special ((f m out a b).cell out)) (sym e) ∙ h)

-- ===== src/Runtime/ThreeValued.antt =====
-- runtime/cel_3vl.c: `&&`, `||` and `!` over bool, error and unknown.
pub mod Tables
mod Runs
use cel_spec_wasm.Prelude.{ℕ, ◌==◌, Bool, true, false, ◌&&◌, ◌||◌, not, if◌then◌else◌}
use cel_spec_wasm.Runtime.Value.{
  CelValue, Arena, Memory, kind, cel_bool, cel_unknown, cel_error, payload_b, write, write_bool,
  poison, err_type_mismatch, cel_unknown_merge,
}

abbrev pub is_3vl_kind : ℕ → Bool
is_3vl_kind k = (k == cel_bool) || (k == cel_unknown) || (k == cel_error)

module _ (ar : Arena) where
  pub cel_copy_slot : Memory ar.State → ℕ → ℕ → Memory ar.State
  cel_copy_slot m dst src = write m dst (m.cell src)

  -- Two operands that are errors or unknowns: an unknown passes before an error.
  pub logic_unknown_error_tail : Memory ar.State → ℕ → ℕ → ℕ → Memory ar.State
  logic_unknown_error_tail m out a b =
      let va = m.cell a in
      let vb = m.cell b in
      if (kind va == cel_unknown) && (kind vb == cel_unknown)
      then cel_unknown_merge ar m out a b
      else if kind va == cel_unknown
      then write m out va
      else if kind vb == cel_unknown
      then write m out vb
      else write m out va

  pub cel_and : Memory ar.State → ℕ → ℕ → ℕ → Memory ar.State
  unfolding logic_unknown_error_tail
  cel_and m out a b =
      let va = m.cell a in
      let vb = m.cell b in
      if (kind va == cel_bool) && (payload_b va == 0)
      then write_bool m out false
      else if (kind vb == cel_bool) && (payload_b vb == 0)
      then write_bool m out false
      else if not (is_3vl_kind (kind va)) || not (is_3vl_kind (kind vb))
      then poison m out err_type_mismatch
      else if kind va == cel_bool
      then write m out vb
      else if kind vb == cel_bool
      then write m out va
      else logic_unknown_error_tail m out a b

  pub cel_or : Memory ar.State → ℕ → ℕ → ℕ → Memory ar.State
  unfolding logic_unknown_error_tail
  cel_or m out a b =
      let va = m.cell a in
      let vb = m.cell b in
      if (kind va == cel_bool) && not (payload_b va == 0)
      then write_bool m out true
      else if (kind vb == cel_bool) && not (payload_b vb == 0)
      then write_bool m out true
      else if not (is_3vl_kind (kind va)) || not (is_3vl_kind (kind vb))
      then poison m out err_type_mismatch
      else if kind va == cel_bool
      then write m out vb
      else if kind vb == cel_bool
      then write m out va
      else logic_unknown_error_tail m out a b

  pub cel_not : Memory ar.State → ℕ → ℕ → Memory ar.State
  cel_not m out a =
      let va = m.cell a in
      if kind va == cel_bool
      then write_bool m out (payload_b va == 0)
      else if (kind va == cel_unknown) || (kind va == cel_error)
      then write m out va
      else poison m out err_type_mismatch

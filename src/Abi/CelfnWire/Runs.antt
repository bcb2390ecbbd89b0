-- ===== src/Abi/CelfnWire/Runs.antt =====
-- abi/celfn_wire.cc: messages of concrete types.
use cel_spec_wasm.Prelude.{◌≡◌, refl, ◌↔◌, true, []}
use cel_spec_wasm.Shared.StaticType.{int, list, optional}
use cel_spec_wasm.Abi.CelfnWire.{
  wire, no_params, type_from_cel_type, type_equals, wire_list, wire_optional,
}
use cel_spec_wasm.Abi.CelfnWire.Equality.{type_equals_iff}

type_equals_iff_example :
    (type_equals (wire_list (wire 2 [] no_params)) (wire_optional (wire 2 [] no_params)) ≡ true)
    ↔ (list int ≡ optional int)
unfolding type_from_cel_type
type_equals_iff_example =
    type_equals_iff (list int) (optional int) (wire_list (wire 2 [] no_params))
      (wire_optional (wire 2 [] no_params)) refl refl

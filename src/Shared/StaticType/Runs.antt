-- ===== src/Shared/StaticType/Runs.antt =====
-- shared/type.cc: equality on concrete types.
use cel_spec_wasm.Prelude.{◌≡◌, ◌↔◌, true}
use cel_spec_wasm.Shared.StaticType.{int, string, list, map, type_eq}
use cel_spec_wasm.Shared.StaticType.Equality.{type_eq_iff}

type_eq_iff_example :
    (type_eq (map string (list int)) (map string int) ≡ true)
    ↔ (map string (list int) ≡ map string int)
type_eq_iff_example = type_eq_iff (map string (list int)) (map string int)

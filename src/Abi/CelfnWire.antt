-- ===== src/Abi/CelfnWire.antt =====
-- abi/celfn_wire.cc: static types as messages of the wire format (abi/cel_abi.proto), the rows of
-- required functions, and the equality of messages. Types as text are not modelled.
pub mod Equality
mod Runs
use cel_spec_wasm.Prelude.{
  ℕ, suc, ◌≡◌, Bool, true, false, ◌&&◌, Option, none, some, List, [], ◌∷◌, ◌==◌, if◌then◌else◌,
  bytes_eq,
}
use cel_spec_wasm.Shared.StaticType.{
  CelType, unknown, bool, int, uint, double, string, bytes, list, map, message, duration, timestamp,
  type_type, null, optional,
}

-- A message Type: its kind, its name and its parameters.
mutual
  pub data WireType : Type 0 where
    wire : ℕ → List ℕ → WireParams → WireType

  pub data WireParams : Type 0 where
    no_params : WireParams
    param : WireType → WireParams → WireParams

-- Option, lifted to two arguments: a failed ABSL_CHECK inside aborts the whole.
abbrev pub with_one : (WireType → WireType) → Option WireType → Option WireType
with_one f none = none
with_one f (some a) = some (f a)

abbrev pub with_two :
    (WireType → WireType → WireType) → Option WireType → Option WireType → Option WireType
with_two f none _ = none
with_two f (some _) none = none
with_two f (some a) (some b) = some (f a b)

abbrev pub scalar : ℕ → Option WireType
scalar k = some (wire k [] no_params)

abbrev pub wire_list : WireType → WireType
wire_list e = wire 10 [] (param e no_params)

abbrev pub wire_map : WireType → WireType → WireType
wire_map k v = wire 11 [] (param k (param v no_params))

abbrev pub wire_optional : WireType → WireType
wire_optional e = wire 13 [] (param e no_params)

-- The scalar cases carry the numbers of `WireKindForCelScalar`.
pub type_from_cel_type : CelType → Option WireType
type_from_cel_type unknown = none
type_from_cel_type bool = scalar 1
type_from_cel_type int = scalar 2
type_from_cel_type uint = scalar 3
type_from_cel_type double = scalar 4
type_from_cel_type string = scalar 5
type_from_cel_type bytes = scalar 6
type_from_cel_type duration = scalar 7
type_from_cel_type timestamp = scalar 8
type_from_cel_type (message name) = some (wire 9 name no_params)
type_from_cel_type (list e) = with_one wire_list (type_from_cel_type e)
type_from_cel_type (map k v) = with_two wire_map (type_from_cel_type k) (type_from_cel_type v)
type_from_cel_type type_type = scalar 12
type_from_cel_type (optional e) = with_one wire_optional (type_from_cel_type e)
type_from_cel_type null = scalar 14

pub params_size : WireParams → ℕ
params_size no_params = 0
params_size (param _ ps) = suc (params_size ps)

-- The loop of `TypeEquals` runs over the parameters of both, whose numbers are equal.
mutual
  pub type_equals : WireType → WireType → Bool
  type_equals (wire k n ps) (wire k' n' ps') =
      (k == k') && bytes_eq n n' && (params_size ps == params_size ps') && params_equal ps ps'

  pub params_equal : WireParams → WireParams → Bool
  params_equal no_params _ = true
  params_equal (param _ _) no_params = true
  params_equal (param a ps) (param b ps') = type_equals a b && params_equal ps ps'

pub record CelfnParam : Type 0 where
  pub is_receiver : Bool
  pub type : CelType
  pub name : List ℕ

-- The only backend is kHost, the number 1 on the wire.
pub record CelfnDecl : Type 0 where
  pub fn_name : List ℕ
  pub overload_id : List ℕ
  pub is_receiver : Bool
  pub params : List CelfnParam
  pub return_type : CelType

pub record RequiredFunction : Type 0 where
  pub overload_id : List ℕ
  pub fn_name : List ℕ
  pub backend : ℕ
  pub param_types : List WireType
  pub return_type : WireType
  pub is_receiver : Bool

pub param_types_of : List CelfnParam → Option (List WireType)
param_types_of [] = some []
param_types_of (p ∷ ps) = elim (type_from_cel_type p.type) [
  | none ↦ none
  | some t ↦ elim (param_types_of ps) [ none ↦ none | some ts ↦ some (t ∷ ts) ]
]

pub required_function_from_decl : CelfnDecl → Option RequiredFunction
required_function_from_decl decl = elim (param_types_of decl.params) [
  | none ↦ none
  | some types ↦ elim (type_from_cel_type decl.return_type) [
    | none ↦ none
    | some result ↦ some (record {
      overload_id = decl.overload_id;
      fn_name = decl.fn_name;
      backend = 1;
      param_types = types;
      return_type = result;
      is_receiver = decl.is_receiver;
    })
  ]
]

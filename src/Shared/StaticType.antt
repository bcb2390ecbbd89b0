-- ===== src/Shared/StaticType.antt =====
-- shared/type.h and shared/type.cc: the static types of declarations. A value of the class is built
-- by a factory (or by default, as `unknown`), so it is one of these constructors; the shared
-- pointers to element types are the element types.
pub mod Equality
mod Runs
use cel_spec_wasm.Prelude.{
  ℕ, ◌≡◌, Bool, true, false, ◌&&◌, not, Option, none, some, List, ◌==◌, if◌then◌else◌, bytes_eq,
}

pub data CelType : Type 0 where
  unknown : CelType
  bool : CelType
  int : CelType
  uint : CelType
  double : CelType
  string : CelType
  bytes : CelType
  list : CelType → CelType
  map : CelType → CelType → CelType
  message : List ℕ → CelType
  duration : CelType
  timestamp : CelType
  type_type : CelType
  null : CelType
  optional : CelType → CelType

abbrev pub type_kind : CelType → ℕ
type_kind unknown = 0
type_kind bool = 1
type_kind int = 2
type_kind uint = 3
type_kind double = 4
type_kind string = 5
type_kind bytes = 6
type_kind (list _) = 7
type_kind (map _ _) = 8
type_kind (message _) = 9
type_kind duration = 11
type_kind timestamp = 12
type_kind type_type = 13
type_kind null = 14
type_kind (optional _) = 15

-- A failed ABSL_CHECK is none.
pub message_fully_qualified_name : CelType → Option (List ℕ)
message_fully_qualified_name (message name) = some name
message_fully_qualified_name _ = none

pub list_element : CelType → Option CelType
list_element (list e) = some e
list_element _ = none

pub map_key : CelType → Option CelType
map_key (map k _) = some k
map_key _ = none

pub map_value : CelType → Option CelType
map_value (map _ v) = some v
map_value _ = none

pub optional_element : CelType → Option CelType
optional_element (optional e) = some e
optional_element _ = none

pub is_declarable_as_variable : CelType → Bool
is_declarable_as_variable t =
    not (type_kind t == 0) && not (type_kind t == 14) && not (type_kind t == 15)

-- `operator==`: first the kinds, then what the kind carries.
pub type_eq : CelType → CelType → Bool
type_eq (message a) (message b) = bytes_eq a b
type_eq (list a) (list b) = type_eq a b
type_eq (map a b) (map c d) = type_eq a c && type_eq b d
type_eq (optional a) (optional b) = type_eq a b
type_eq a b = type_kind a == type_kind b

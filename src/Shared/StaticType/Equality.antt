-- ===== src/Shared/StaticType/Equality.antt =====
-- shared/type.cc: `operator==` decides equality.
use cel_spec_wasm.Prelude.{
  ◌≡◌, refl, sym, ◌∙◌, ap, ap₂, ◌↔◌, Bool, true, ◌&&◌, arith, bytes_eq_refl, bytes_eq→eq,
}
use cel_spec_wasm.Shared.StaticType.{
  CelType, unknown, bool, int, uint, double, string, bytes, list, map, message, duration, timestamp,
  type_type, null, optional, type_eq,
}

type_eq_refl : (a : CelType) → type_eq a a ≡ true
unfolding type_eq
type_eq_refl unknown = refl
type_eq_refl bool = refl
type_eq_refl int = refl
type_eq_refl uint = refl
type_eq_refl double = refl
type_eq_refl string = refl
type_eq_refl bytes = refl
type_eq_refl (list a) = type_eq_refl a
type_eq_refl (map a b) = ground (arith, type_eq_refl a, type_eq_refl b)
type_eq_refl (message a) = bytes_eq_refl a
type_eq_refl duration = refl
type_eq_refl timestamp = refl
type_eq_refl type_type = refl
type_eq_refl null = refl
type_eq_refl (optional a) = type_eq_refl a

both_true : (a b : Bool) → (a && b) ≡ true → (a ≡ true) × (b ≡ true)
both_true a b h = ground arith

type_eq→eq : (a b : CelType) → type_eq a b ≡ true → a ≡ b
unfolding type_eq
type_eq→eq unknown b h = ground arith
type_eq→eq bool b h = ground arith
type_eq→eq int b h = ground arith
type_eq→eq uint b h = ground arith
type_eq→eq double b h = ground arith
type_eq→eq string b h = ground arith
type_eq→eq bytes b h = ground arith
type_eq→eq duration b h = ground arith
type_eq→eq timestamp b h = ground arith
type_eq→eq type_type b h = ground arith
type_eq→eq null b h = ground arith
type_eq→eq (list a) (list b) h = ap list (type_eq→eq a b h)
type_eq→eq (list a) unknown h = cc
type_eq→eq (list a) bool h = cc
type_eq→eq (list a) int h = cc
type_eq→eq (list a) uint h = cc
type_eq→eq (list a) double h = cc
type_eq→eq (list a) string h = cc
type_eq→eq (list a) bytes h = cc
type_eq→eq (list a) duration h = cc
type_eq→eq (list a) timestamp h = cc
type_eq→eq (list a) type_type h = cc
type_eq→eq (list a) null h = cc
type_eq→eq (list a) (map b c) h = cc
type_eq→eq (list a) (message n) h = cc
type_eq→eq (list a) (optional b) h = cc
type_eq→eq (map a d) (map b c) h =
    let (first, second) = both_true (type_eq a b) (type_eq d c) h in
    ap₂ map (type_eq→eq a b first) (type_eq→eq d c second)
type_eq→eq (map a d) unknown h = cc
type_eq→eq (map a d) bool h = cc
type_eq→eq (map a d) int h = cc
type_eq→eq (map a d) uint h = cc
type_eq→eq (map a d) double h = cc
type_eq→eq (map a d) string h = cc
type_eq→eq (map a d) bytes h = cc
type_eq→eq (map a d) duration h = cc
type_eq→eq (map a d) timestamp h = cc
type_eq→eq (map a d) type_type h = cc
type_eq→eq (map a d) null h = cc
type_eq→eq (map a d) (list b) h = cc
type_eq→eq (map a d) (message n) h = cc
type_eq→eq (map a d) (optional b) h = cc
type_eq→eq (message a) (message n) h = ap message (bytes_eq→eq a n h)
type_eq→eq (message a) unknown h = cc
type_eq→eq (message a) bool h = cc
type_eq→eq (message a) int h = cc
type_eq→eq (message a) uint h = cc
type_eq→eq (message a) double h = cc
type_eq→eq (message a) string h = cc
type_eq→eq (message a) bytes h = cc
type_eq→eq (message a) duration h = cc
type_eq→eq (message a) timestamp h = cc
type_eq→eq (message a) type_type h = cc
type_eq→eq (message a) null h = cc
type_eq→eq (message a) (list b) h = cc
type_eq→eq (message a) (map b c) h = cc
type_eq→eq (message a) (optional b) h = cc
type_eq→eq (optional a) (optional b) h = ap optional (type_eq→eq a b h)
type_eq→eq (optional a) unknown h = cc
type_eq→eq (optional a) bool h = cc
type_eq→eq (optional a) int h = cc
type_eq→eq (optional a) uint h = cc
type_eq→eq (optional a) double h = cc
type_eq→eq (optional a) string h = cc
type_eq→eq (optional a) bytes h = cc
type_eq→eq (optional a) duration h = cc
type_eq→eq (optional a) timestamp h = cc
type_eq→eq (optional a) type_type h = cc
type_eq→eq (optional a) null h = cc
type_eq→eq (optional a) (list b) h = cc
type_eq→eq (optional a) (map b c) h = cc
type_eq→eq (optional a) (message n) h = cc

-- `operator==` on types holds exactly when they are the same type.
pub type_eq_iff : (a b : CelType) → (type_eq a b ≡ true) ↔ (a ≡ b)
type_eq_iff a b = (type_eq→eq a b, λ e. ap (type_eq a) (sym e) ∙ type_eq_refl a)

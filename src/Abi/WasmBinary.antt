-- ===== src/Abi/WasmBinary.antt =====
-- abi/wasm_binary.cc: unsigned LEB128 numbers and the custom sections of a core wasm module. A span
-- of bytes is a list of numbers below 256, a position in it a number. `size_t` does not wrap, since
-- a position never passes the end of a span in memory.
pub mod Leb
pub mod Reads
pub mod Walk
pub mod Extend
pub mod Sections
mod Runs
use mathlib.Core.WellFounded.{Acc}
use cel_spec_wasm.Prelude.{
  ℕ, zero, suc, ◌+◌, ◌-◌, ◌*◌, ◌/◌, ◌%◌, ◌^◌, ◌<◌, bit_and, bit_or, ◌≡◌, dite, Bool, true, false,
  Option, none, some, List, [], ◌∷◌, ◌++◌, arith, dec_lt, ltb, ◌==◌, if◌then◌else◌, bytes_eq,
  length, get_elem?, take, drop,
}
use cel_spec_wasm.Prelude.Order.{lt_wf}

-- The messages of the InvalidArgument errors, and NotFound.
pub data Status : Type 0 where
  not_core_module : Status
  bad_framing_leb : Status
  name_overruns_section : Status
  section_overruns_binary : Status
  duplicate_section : Status
  already_present : Status
  not_found : Status

-- absl::StatusOr. `stuck` is no C++ value: the section walk ran out of fuel.
pub data StatusOr {ℓ} (A : Type ℓ) : Type ℓ where
  ok : A → StatusOr A
  err : Status → StatusOr A
  stuck : StatusOr A

infixl 5 ◌>>=◌
abbrev pub ◌>>=◌ {ℓ κ} : {A : Type ℓ} {B : Type κ} → StatusOr A → (A → StatusOr B) → StatusOr B
ok a >>= f = f a
err e >>= f = err e
stuck >>= f = stuck

abbrev pub wasm_magic : List ℕ
wasm_magic = 0x00 ∷ 0x61 ∷ 0x73 ∷ 0x6d ∷ []

abbrev pub preamble_size : ℕ
preamble_size = 8

abbrev pub custom_section_id : ℕ
custom_section_id = 0

abbrev pub max_u32_leb_bytes : ℕ
max_u32_leb_bytes = 5

-- The little-endian word behind the magic.
abbrev pub le_word : List ℕ → ℕ
le_word [] = 0
le_word (b ∷ bs) = b + 256 * le_word bs

pub is_core_module : List ℕ → Bool
is_core_module bytes =
    if ltb (length bytes) preamble_size
    then false
    else if bytes_eq (take 4 bytes) wasm_magic
    then le_word (take 4 (drop 4 bytes)) == 0x00000001
    else false

-- The state of a read: whether it succeeded, `*pos` and `*out`.
pub record LebRead : Type 0 where
  pub success : Bool
  pub pos : ℕ
  pub out : ℕ

-- The number counts the bytes that may still be read; `<<` and `|=` are those of uint32_t.
pub read_leb_loop : ℕ → List ℕ → ℕ → ℕ → ℕ → LebRead
read_leb_loop zero bytes pos out shift = record { success = false; pos = pos; out = out }
read_leb_loop (suc n) bytes pos out shift = elim (get_elem? bytes pos) [
  | none ↦ record { success = false; pos = pos; out = out }
  | some b ↦
      let out' = bit_or out (bit_and b 0x7f * 2 ^ shift % 2 ^ 32) in
      let more = read_leb_loop n bytes (pos + 1) out' (shift + 7) in
      if bit_and b 0x80 == 0 then record { success = true; pos = pos + 1; out = out' } else more
]

pub read_leb128_u32 : List ℕ → ℕ → LebRead
read_leb128_u32 bytes pos = read_leb_loop max_u32_leb_bytes bytes pos 0 0

shift_shrinks : (v : ℕ) → 0 < v / 128 → v / 128 < v
shift_shrinks v h = omega arith

-- `while (true)`: the loop goes on as long as `value >>= 7` is not 0.
pub append_leb_loop : List ℕ → (value : ℕ) → Acc ◌<◌ value → List ℕ
append_leb_loop out value (Acc.intro _ smaller) =
    let b = bit_and value 0x7f in
    dite (dec_lt 0 (value / 128))
      (λ more.
        append_leb_loop (out ++ (bit_or b 0x80 ∷ [])) (value / 128)
          (smaller _ (shift_shrinks value more)))
      (λ _. out ++ (b ∷ []))

pub append_leb128_u32 : List ℕ → ℕ → List ℕ
append_leb128_u32 out value = append_leb_loop out value (lt_wf.apply value)

-- The value with the advanced position.
pub read_framing_leb : List ℕ → ℕ → StatusOr (ℕ × ℕ)
read_framing_leb bytes pos =
    let r = read_leb128_u32 bytes pos in
    if r.success then ok (r.out, r.pos) else err bad_framing_leb

-- The name with the advanced position.
pub read_section_name : List ℕ → ℕ → ℕ → StatusOr (List ℕ × ℕ)
read_section_name bytes pos section_end = do
  (name_len, p) ← read_framing_leb bytes pos
  if ltb section_end (p + name_len)
      then err name_overruns_section
      else ok (take name_len (drop p bytes), p + name_len)

-- What a custom section does to `found`.
pub visit_custom : List ℕ → List ℕ → ℕ → ℕ → Option (List ℕ) → StatusOr (Option (List ℕ))
visit_custom bytes name pos section_end found = do
  (section_name, p) ← read_section_name bytes pos section_end
  if bytes_eq section_name name
      then (elim found [
        | none ↦ ok (some (take (section_end - p) (drop p bytes)))
        | some _ ↦ err duplicate_section
      ])
      else ok found

-- One round of the walk at the section that begins with `section_id` at `pos`.
pub visit_section : List ℕ → List ℕ → ℕ → ℕ → Option (List ℕ) → StatusOr (ℕ × Option (List ℕ))
visit_section bytes name section_id pos found = do
  (size, p) ← read_framing_leb bytes (pos + 1)
  if ltb (length bytes) (p + size)
      then err section_overruns_binary
      else if section_id == custom_section_id
      then (do found' ← visit_custom bytes name p (p + size) found; ok (p + size, found'))
      else ok (p + size, found)

-- `while (pos < size)`, with fuel.
pub walk_sections : ℕ → List ℕ → List ℕ → ℕ → Option (List ℕ) → StatusOr (Option (List ℕ))
walk_sections zero bytes name pos found = elim (get_elem? bytes pos) [
  | none ↦ ok found
  | some _ ↦ stuck
]
walk_sections (suc fuel) bytes name pos found = elim (get_elem? bytes pos) [
  | none ↦ ok found
  | some section_id ↦ elim (visit_section bytes name section_id pos found) [
    | ok (p, found') ↦ walk_sections fuel bytes name p found'
    | err e ↦ err e
    | stuck ↦ stuck
  ]
]

-- What the walk found, as an answer.
abbrev pub report : Option (List ℕ) → StatusOr (List ℕ)
report (some section) = ok section
report none = err not_found

-- Each round takes two bytes at least, so as many rounds as there are bytes are enough.
pub find_custom_section : List ℕ → List ℕ → StatusOr (List ℕ)
find_custom_section bytes name =
    if is_core_module bytes
    then walk_sections (length bytes) bytes name preamble_size none >>= report
    else err not_core_module

pub build_custom_section : List ℕ → List ℕ → List ℕ
build_custom_section name payload =
    let body = append_leb128_u32 [] (length name % 2 ^ 32) ++ (name ++ payload) in
    append_leb128_u32 (custom_section_id ∷ []) (length body % 2 ^ 32) ++ body

pub append_custom_section : List ℕ → List ℕ → List ℕ → StatusOr (List ℕ)
append_custom_section bytes name payload = elim (find_custom_section bytes name) [
  | ok _ ↦ err already_present
  | err not_found ↦ ok (bytes ++ build_custom_section name payload)
  | err e ↦ err e
  | stuck ↦ stuck
]

-- ===== src/Abi/WasmBinary/Reads.antt =====
-- abi/wasm_binary.cc: the reads on any bytes, well formed or not.
use cel_spec_wasm.Prelude.{
  ℕ, zero, suc, ◌+◌, ◌*◌, ◌%◌, ◌^◌, ◌≤◌, ◌<◌, bit_and, bit_or, ◌≡◌, refl, ◌∙◌, inl, inr, true,
  false, none, some, List, ◌++◌, arith, ◌==◌, Option-cases, Bool-cases, length, get_elem?,
  get_elem?-lt, get_elem?-append_left,
}
use cel_spec_wasm.Prelude.Bits.{bit_or-lt}
use cel_spec_wasm.Abi.WasmBinary.{LebRead, ok, read_leb_loop, read_leb128_u32, read_framing_leb}

pub record LebBounds (n : ℕ) (bytes : List ℕ) (pos : ℕ) (r : LebRead) : Type 0 where
  pub advances : pos < r.pos
  pub inside : r.pos ≤ length bytes
  pub short : r.pos ≤ pos + n
  pub fits : r.out < 2 ^ 32

-- The three ways in which a round ends, and what it leaves.
abbrev next_out : ℕ → ℕ → ℕ → ℕ
next_out b out shift = bit_or out (bit_and b 0x7f * 2 ^ shift % 2 ^ 32)

read_end :
    (n : ℕ) (bytes : List ℕ) (pos out shift : ℕ)
    → get_elem? bytes pos ≡ none
    → read_leb_loop (suc n) bytes pos out shift ≡ record { success = false; pos = pos; out = out }
unfolding read_leb_loop
read_end n bytes pos out shift at = rw (at, read_leb_loop)

read_last :
    (n : ℕ) (bytes : List ℕ) (pos out shift b : ℕ)
    → get_elem? bytes pos ≡ some b
    → (bit_and b 0x80 == 0) ≡ true
    → read_leb_loop (suc n) bytes pos out shift
      ≡ record { success = true; pos = pos + 1; out = next_out b out shift }
unfolding read_leb_loop
read_last n bytes pos out shift b at last = rw (at, read_leb_loop, last)

read_more :
    (n : ℕ) (bytes : List ℕ) (pos out shift b : ℕ)
    → get_elem? bytes pos ≡ some b
    → (bit_and b 0x80 == 0) ≡ false
    → read_leb_loop (suc n) bytes pos out shift
      ≡ read_leb_loop n bytes (pos + 1) (next_out b out shift) (shift + 7)
unfolding read_leb_loop
read_more n bytes pos out shift b at more = rw (at, read_leb_loop, more)

next_out-lt : (b out shift : ℕ) → out < 2 ^ 32 → next_out b out shift < 2 ^ 32
next_out-lt b out shift h = bit_or-lt 32 out (bit_and b 0x7f * 2 ^ shift % 2 ^ 32) h (omega arith)

read_leb_loop-LebBounds :
    (n : ℕ) (bytes : List ℕ) (pos out shift : ℕ)
    → out < 2 ^ 32
    → (read_leb_loop n bytes pos out shift).success ≡ true
    → LebBounds n bytes pos (read_leb_loop n bytes pos out shift)
unfolding read_leb_loop
read_leb_loop-LebBounds zero bytes pos out shift fits e = cc
read_leb_loop-LebBounds (suc n) bytes pos out shift fits e =
    elim (Option-cases (get_elem? bytes pos)) [
      | inl at ↦ cc (e, read_end n bytes pos out shift at)
      | inr (b, at) ↦ elim (Bool-cases (bit_and b 0x80 == 0)) [
        | inl last ↦
            rw (read_last n bytes pos out shift b at last)
              (omega (arith, get_elem?-lt bytes pos at, next_out-lt b out shift fits))
        | inr more ↦
            let step = read_more n bytes pos out shift b at more in
            let rest =
              read_leb_loop-LebBounds n bytes (pos + 1) (next_out b out shift) (shift + 7)
                (next_out-lt b out shift fits) (rw step at e) in
            rw step (omega (arith, rest.advances, rest.inside, rest.short, rest.fits))
      ]
    ]

-- A number that is read takes one to five bytes of the span, and is a uint32_t.
pub read_leb128_u32-LebBounds :
    (bytes : List ℕ) (pos : ℕ)
    → (read_leb128_u32 bytes pos).success ≡ true
    → LebBounds 5 bytes pos (read_leb128_u32 bytes pos)
unfolding read_leb128_u32
read_leb128_u32-LebBounds bytes pos e = read_leb_loop-LebBounds 5 bytes pos 0 0 (omega arith) e

read_leb_loop-extend :
    (n : ℕ) (bytes more : List ℕ) (pos out shift : ℕ)
    → (read_leb_loop n bytes pos out shift).success ≡ true
    → read_leb_loop n (bytes ++ more) pos out shift ≡ read_leb_loop n bytes pos out shift
unfolding read_leb_loop
read_leb_loop-extend zero bytes more pos out shift e = refl
read_leb_loop-extend (suc n) bytes more pos out shift e =
    elim (Option-cases (get_elem? bytes pos)) [
      | inl at ↦ cc (e, read_end n bytes pos out shift at)
      | inr (b, at) ↦
          let at' = get_elem?-append_left bytes more pos (get_elem?-lt bytes pos at) ∙ at in
          elim (Bool-cases (bit_and b 0x80 == 0)) [
            | inl last ↦ rw (
              read_last n bytes pos out shift b at last,
              read_last n (bytes ++ more) pos out shift b at' last,
            )
            | inr going ↦
                let step = read_more n bytes pos out shift b at going in
                rw (step, read_more n (bytes ++ more) pos out shift b at' going)
                  (read_leb_loop-extend n bytes more (pos + 1) (next_out b out shift) (shift + 7)
                    (rw step at e))
          ]
    ]

-- Bytes behind the span do not change a read that succeeds within it.
pub read_leb128_u32-extend :
    (bytes more : List ℕ) (pos : ℕ)
    → (read_leb128_u32 bytes pos).success ≡ true
    → read_leb128_u32 (bytes ++ more) pos ≡ read_leb128_u32 bytes pos
unfolding read_leb128_u32
read_leb128_u32-extend bytes more pos e = read_leb_loop-extend 5 bytes more pos 0 0 e

-- A framing number, read inside the span: where it ends, and what its bytes are.
pub read_framing_leb-eq-ok :
    (bytes : List ℕ) (pos : ℕ) {v p : ℕ}
    → read_framing_leb bytes pos ≡ ok (v, p)
    → (pos < p)
      × (p ≤ length bytes)
      × ((more : List ℕ) → read_framing_leb (bytes ++ more) pos ≡ ok (v, p))
unfolding read_framing_leb
read_framing_leb-eq-ok bytes pos {v} {p} e = elim (Bool-cases (read_leb128_u32 bytes pos).success) [
  | inl good ↦
      let b = read_leb128_u32-LebBounds bytes pos good in
      let same : ok ((read_leb128_u32 bytes pos).out, (read_leb128_u32 bytes pos).pos) ≡ ok (v, p) =
        rw good at e in
      (
        ground (arith, b.advances, same),
        ground (arith, b.inside, same),
        λ more. rw (read_leb128_u32-extend bytes more pos good, good) same,
      )
  | inr bad ↦ cc (e, bad)
]

-- ===== src/Compiler/SlotAllocator.antt =====
-- compiler/codegen/slot_allocator.{h,cc}: the cells of the workspace region. The head of the free
-- list is the back of the vector. Numbers are uint32_t and wrap; `none` is an ABSL_CHECK that fails.
pub mod World
pub mod Debug
mod Runs
use cel_spec_wasm.Prelude.{
  ℕ, ◌+◌, ◌-◌, ◌*◌, ◌%◌, ◌^◌, ◌≡◌, Bool, true, false, Option, none, some, List, [], ◌∷◌, max, ltb,
  ◌==◌, if◌then◌else◌,
}

abbrev pub slot_stride : ℕ
slot_stride = 32

abbrev pub u32 : ℕ → ℕ
u32 n = n % 2 ^ 32

pub record SlotAllocator : Type 0 where
  pub base_offset : ℕ
  pub debug_mode : Bool
  pub bump : ℕ
  pub live_slots : ℕ
  pub peak_slots : ℕ
  pub free_list : List ℕ

pub create : ℕ → Bool → Option SlotAllocator
create base_offset debug_mode =
    if base_offset % 16 == 0
    then some (record {
      base_offset = base_offset;
      debug_mode = debug_mode;
      bump = 0;
      live_slots = 0;
      peak_slots = 0;
      free_list = [];
    })
    else none

-- The cell at the bump index.
next_cell : SlotAllocator → ℕ
next_cell a = u32 (a.base_offset + u32 (a.bump * slot_stride))

acquire_debug : SlotAllocator → ℕ × SlotAllocator
unfolding next_cell
acquire_debug a =
    let bump' = u32 (a.bump + 1) in
    (next_cell a, record a { bump = bump'; peak_slots = max a.peak_slots bump' })

acquire_bump : SlotAllocator → ℕ × SlotAllocator
unfolding next_cell
acquire_bump a =
    let live' = u32 (a.live_slots + 1) in
    (
      next_cell a,
      record a { bump = u32 (a.bump + 1); live_slots = live'; peak_slots = max a.peak_slots live' },
    )

-- The reuse path, and the bump path where nothing is free.
acquire_reuse : SlotAllocator → List ℕ → ℕ × SlotAllocator
unfolding acquire_bump
acquire_reuse a [] = acquire_bump a
acquire_reuse a (offset ∷ rest) =
    (offset, record a { free_list = rest; live_slots = u32 (a.live_slots + 1) })

pub acquire : SlotAllocator → ℕ × SlotAllocator
unfolding acquire_debug acquire_reuse
acquire a = if a.debug_mode then acquire_debug a else acquire_reuse a a.free_list

pub release : SlotAllocator → ℕ → Option SlotAllocator
release a offset =
    if a.debug_mode
    then some a
    else if ltb a.live_slots 1
    then none
    else some (record a { live_slots = a.live_slots - 1; free_list = offset ∷ a.free_list })

pub total_bytes : SlotAllocator → ℕ
total_bytes a = u32 (a.peak_slots * slot_stride)

-- ===== src/Compiler/SlotAllocator/World.antt =====
-- compiler/codegen/slot_allocator.cc: the allocator with a client that releases what it acquired.
use cel_spec_wasm.Prelude.{
  ℕ, ◌+◌, ◌-◌, ◌*◌, ◌/◌, ◌%◌, ◌^◌, ◌≤◌, ◌<◌, ◌≡◌, refl, ap, ◌⊎◌, inl, inr, Bool, true, false, ◌&&◌,
  some, List, [], ◌∷◌, max, arith, ltb, leb, ◌==◌, if◌then◌else◌, length,
}
use cel_spec_wasm.Compiler.SlotAllocator.{
  SlotAllocator, create, acquire, release, total_bytes, slot_stride,
}

-- How often a cell stands in a list, and the list without one of it.
abbrev pub count : ℕ → List ℕ → ℕ
count x [] = 0
count x (y ∷ ys) = (if x == y then 1 else 0) + count x ys

abbrev pub erase : ℕ → List ℕ → List ℕ
erase x [] = []
erase x (y ∷ ys) = if x == y then ys else y ∷ erase x ys

count-erase :
    (x y : ℕ) (ys : List ℕ)
    → 0 < count x ys
    → count y (erase x ys) + (if y == x then 1 else 0) ≡ count y ys
count-erase x y [] h = absurd (omega arith)
count-erase x y (z ∷ ys) h = ground (arith, count-erase x y ys)

length-erase : (x : ℕ) (ys : List ℕ) → 0 < count x ys → length (erase x ys) + 1 ≡ length ys
length-erase x [] h = absurd (omega arith)
length-erase x (z ∷ ys) h = ground (arith, length-erase x ys)

List-cases : (xs : List ℕ) → (xs ≡ []) ⊎ ((y : ℕ) × (ys : List ℕ) × (xs ≡ y ∷ ys))
List-cases [] = inl refl
List-cases (y ∷ ys) = inr (y, ys, refl)

-- The allocator, the cells that its client holds, and the most that it ever held.
pub record World : Type 0 where
  pub alloc : SlotAllocator
  pub live : List ℕ
  pub most : ℕ

-- A client acquires while the next cell fits below 2^32, and releases a cell that it holds.
pub data Step : World → World → Type 0 where
  acquires :
      (w : World)
      → w.alloc.base_offset + (w.alloc.bump + 1) * slot_stride ≤ 2 ^ 32
      → Step w (record {
        alloc = (acquire w.alloc).1;
        live = (acquire w.alloc).0 ∷ w.live;
        most = max w.most (length w.live + 1);
      })
  releases :
      (w : World) (x : ℕ) (a : SlotAllocator)
      → 0 < count x w.live
      → release w.alloc x ≡ some a
      → Step w (record { alloc = a; live = erase x w.live; most = w.most })

pub data Reach (w : World) : World → Type 0 where
  here : Reach w w
  next : {v u : World} → Reach w v → Step v u → Reach w u

abbrev pub start : SlotAllocator → World
start a = record { alloc = a; live = []; most = 0 }

-- The cells below the bump index.
abbrev pub is_cell : ℕ → ℕ → ℕ → Bool
is_cell base bump x = leb base x && ((x - base) % 32 == 0) && ltb ((x - base) / 32) bump

-- Every cell below the bump index is held once or free once, and nothing else is held or free.
pub record IsValid (w : World) : Type 0 where
  pub reuses : w.alloc.debug_mode ≡ false
  pub aligned : w.alloc.base_offset % 16 ≡ 0
  pub fits : w.alloc.base_offset + w.alloc.bump * slot_stride ≤ 2 ^ 32
  pub counted : w.alloc.live_slots ≡ length w.live
  pub parted : length w.live + length w.alloc.free_list ≡ w.alloc.bump
  pub peaked : w.alloc.peak_slots ≡ w.alloc.bump
  pub most_seen : w.most ≡ w.alloc.peak_slots
  pub split :
      (x : ℕ)
      → count x w.live + count x w.alloc.free_list
        ≡ (if is_cell w.alloc.base_offset w.alloc.bump x then 1 else 0)

create-IsValid :
    (base : ℕ) {a : SlotAllocator} → base ≤ 2 ^ 32 → create base false ≡ some a → IsValid (start a)
unfolding create
create-IsValid base small e = ground arith

-- The two paths of `acquire`, where nothing wraps.
module _ (a : SlotAllocator) (reuses : a.debug_mode ≡ false) where
  acquire_pops :
      (offset : ℕ) (rest : List ℕ)
      → a.free_list ≡ offset ∷ rest
      → a.live_slots + 1 < 2 ^ 32
      → acquire a ≡ (offset, record a { free_list = rest; live_slots = a.live_slots + 1 })
  unfolding acquire
  acquire_pops offset rest e small = ground arith

  acquire_bumps :
      a.free_list ≡ []
      → a.live_slots + 1 < 2 ^ 32
      → a.base_offset + (a.bump + 1) * slot_stride ≤ 2 ^ 32
      → acquire a ≡ (
        a.base_offset + a.bump * slot_stride,
        record a {
          bump = a.bump + 1;
          live_slots = a.live_slots + 1;
          peak_slots = max a.peak_slots (a.live_slots + 1);
        },
      )
  unfolding acquire
  acquire_bumps e small room = ground arith

abbrev acquired : World → World
acquired w = record {
  alloc = (acquire w.alloc).1;
  live = (acquire w.alloc).0 ∷ w.live;
  most = max w.most (length w.live + 1);
}

pop_split :
    (y offset : ℕ) (live rest : List ℕ) (cells : ℕ)
    → count y live + count y (offset ∷ rest) ≡ cells
    → count y (offset ∷ live) + count y rest ≡ cells
pop_split y offset live rest cells h = omega arith

bump_split :
    (y base bump : ℕ)
    → (if y == base + bump * slot_stride then 1 else 0) + (if is_cell base bump y then 1 else 0)
      ≡ (if is_cell base (bump + 1) y then 1 else 0)
bump_split y base bump = ground arith

acquire-IsValid :
    (w : World)
    → IsValid w
    → w.alloc.base_offset + (w.alloc.bump + 1) * slot_stride ≤ 2 ^ 32
    → IsValid (acquired w)
acquire-IsValid w v room = elim (List-cases w.alloc.free_list) [
  | inl e ↦ rw (acquire_bumps w.alloc v.reuses e (omega arith) room) (record {
    reuses = v.reuses;
    aligned = v.aligned;
    fits = room;
    counted = omega (arith, v.counted);
    parted = omega (arith, v.parted, v.counted);
    peaked = omega (arith, v.parted, v.peaked, v.counted, ap length e);
    most_seen = omega (arith, v.most_seen, v.counted);
    split = λ y. omega (arith, v.split y, bump_split y w.alloc.base_offset w.alloc.bump);
  })
  | inr (offset, rest, e) ↦ rw (acquire_pops w.alloc v.reuses offset rest e (omega arith)) (record {
    reuses = v.reuses;
    aligned = v.aligned;
    fits = v.fits;
    counted = omega (arith, v.counted);
    parted = omega (arith, v.parted, ap length e);
    peaked = v.peaked;
    most_seen = omega (arith, v.most_seen, v.peaked, v.parted, ap length e);
    split = λ y. pop_split y offset w.live rest _ (rw e at (v.split y));
  })
]

release-IsValid :
    (w : World) (x : ℕ) (a : SlotAllocator)
    → IsValid w
    → 0 < count x w.live
    → release w.alloc x ≡ some a
    → IsValid (record { alloc = a; live = erase x w.live; most = w.most })
unfolding release
release-IsValid w x a v held e = record {
  reuses = ground (arith, v.reuses);
  aligned = ground (arith, v.reuses, v.aligned);
  fits = ground (arith, v.reuses, v.fits);
  counted = ground (arith, v.reuses, v.counted, length-erase x w.live held);
  parted = ground (arith, v.reuses, v.parted, v.counted, length-erase x w.live held);
  peaked = ground (arith, v.reuses, v.peaked);
  most_seen = ground (arith, v.reuses, v.most_seen);
  split = λ y. ground (arith, v.reuses, v.split y, count-erase x y w.live held);
}

Step-IsValid : {w u : World} → Step w u → IsValid w → IsValid u
Step-IsValid (acquires w room) v = acquire-IsValid w v room
Step-IsValid (releases w x a held e) v = release-IsValid w x a v held e

pub Reach-IsValid : {w u : World} → IsValid w → Reach w u → IsValid u
Reach-IsValid v here = v
Reach-IsValid v (next r st) = Step-IsValid st (Reach-IsValid v r)

-- What a fresh allocator and its client can reach keeps every cell in one hand.
pub create-Reach-IsValid :
    (base : ℕ) (a : SlotAllocator) (u : World)
    → base ≤ 2 ^ 32
    → create base false ≡ some a
    → Reach (start a) u
    → IsValid u
create-Reach-IsValid base a u small e r = Reach-IsValid (create-IsValid base small e) r

acquire_keeps :
    (a : SlotAllocator)
    → ((acquire a).1.base_offset ≡ a.base_offset) × ((acquire a).1.bump ≤ a.bump + 1)
unfolding acquire
acquire_keeps a = ground arith

is_cell_bounds :
    (base bump x : ℕ)
    → is_cell base bump x ≡ true
    → (base ≤ x) × ((x - base) % 32 ≡ 0) × ((x - base) / 32 < bump)
is_cell_bounds base bump x cell = ground arith

-- A cell that was just handed out was held by nobody.
shared_cell :
    (x : ℕ) (live free : List ℕ) (cell : Bool)
    → count x (x ∷ live) + count x free ≡ (if cell then 1 else 0)
    → (count x live ≡ 0) × (cell ≡ true)
shared_cell x live free cell e = ground arith

total_bytes_lem :
    (a : SlotAllocator) → a.peak_slots < 2 ^ 27 → total_bytes a ≡ a.peak_slots * slot_stride
unfolding total_bytes
total_bytes_lem a small = omega arith

-- The cell that `acquire` hands out is one that nobody holds, 16-aligned, and inside the workspace
-- of `total_bytes` that the allocator reports afterwards.
pub acquire_fresh :
    (w : World)
    → IsValid w
    → w.alloc.base_offset + (w.alloc.bump + 1) * slot_stride ≤ 2 ^ 32
    → w.alloc.bump + 1 < 2 ^ 27
    → let (x, a) = acquire w.alloc in
      (count x w.live ≡ 0)
      × (x % 16 ≡ 0)
      × (w.alloc.base_offset ≤ x)
      × (x + slot_stride ≤ w.alloc.base_offset + total_bytes a)
acquire_fresh w v room small =
    let x = (acquire w.alloc).0 in
    let v' = acquire-IsValid w v room in
    let (base, grown) = acquire_keeps w.alloc in
    let shared = v'.split x in
    let (held, cell) = shared_cell x w.live (acquire w.alloc).1.free_list _ shared in
    let (low, steps, within) =
      is_cell_bounds (acquire w.alloc).1.base_offset (acquire w.alloc).1.bump x cell in
    (
      held,
      omega (arith, v.aligned),
      omega arith,
      omega (arith, v'.peaked, total_bytes_lem (acquire w.alloc).1),
    )

-- ===== src/Runtime/Maps/Room.antt =====
-- runtime/cel_runtime.c and cel_arena.c: what a request leaves alone, and `cel_map_create`.
use cel_spec_wasm.Prelude.{
  ℕ, ◌+◌, ◌-◌, ◌*◌, ◌^◌, ◌≡◌, ◌≢◌, ◌<◌, ◌≤◌, refl, true, false, Bool-cases, [], inl, inr, arith,
  ◌==◌, ltb,
}
use cel_spec_wasm.Runtime.Value.{
  CelValue, map_arena, kind, Arena, Memory, align_up_8, arena_alloc, write,
}
use cel_spec_wasm.Runtime.Value.Laws.{Lawful}
use cel_spec_wasm.Runtime.MapIndex.{KeyEq}
use cel_spec_wasm.Runtime.Maps.{
  request, entries_block, entries_bytes_checked, cel_map_create, cel_map_arena, set_header,
}
use cel_spec_wasm.Runtime.Maps.Push.{IsMap}

module _ (ar : Arena) (key_eq : KeyEq) (key_hash : CelValue → ℕ) (low : ℕ)
    (law : Lawful ar low) where
  -- The region that a request gives, and what it leaves alone: the regions in use, and the cells
  -- below `low`.
  pub record IsGiven (m : Memory ar.State) (n p : ℕ) (m1 : Memory ar.State) : Type 0 where
    pub live : (p == 0) ≡ false → law.Live m1.heap.arena p n
    pub fits : (p == 0) ≡ false → p + align_up_8 n ≤ 2 ^ 32
    pub above : (p == 0) ≡ false → low ≤ p
    pub still : (q k : ℕ) → law.Live m.heap.arena q k → law.Live m1.heap.arena q k
    pub words :
        (q k x : ℕ)
        → law.Live m.heap.arena q k
        → q ≤ x
        → x < q + align_up_8 k
        → m1.heap.word x ≡ m.heap.word x
    pub cells :
        (q k x : ℕ)
        → law.Live m.heap.arena q k
        → q ≤ x
        → x + 24 ≤ q + align_up_8 k
        → m1.cell x ≡ m.cell x
    pub low_cells : (x : ℕ) → x + 24 ≤ low → m1.cell x ≡ m.cell x

  pub request-IsGiven :
      (m : Memory ar.State) (n : ℕ)
      → IsGiven m n (request ar key_eq key_hash m n).0 (request ar key_eq key_hash m n).1
  unfolding request arena_alloc
  request-IsGiven m n = elim (Bool-cases ((ar.alloc m.heap.arena n).0 == 0)) [
    | inl nothing ↦ rw nothing (record {
      live = λ got. cc;
      fits = λ got. cc;
      above = λ got. cc;
      still = λ q k live. law.keeps m.heap.arena n q k live;
      words = λ q k x live le lt. refl;
      cells = λ q k x live le lt. refl;
      low_cells = λ x le. refl;
    })
    | inr some_room ↦
        let got : (ar.alloc m.heap.arena n).0 ≢ 0 = λ z. ground arith in
        let base : low ≤ (ar.alloc m.heap.arena n).0 =
          law.high (ar.alloc m.heap.arena n).1 (ar.alloc m.heap.arena n).0 n
            (law.gives m.heap.arena n got) in
        rw some_room (record {
          live = λ _. law.gives m.heap.arena n got;
          fits = λ _. law.fits m.heap.arena n got;
          above = λ _. base;
          still = λ q k live. law.keeps m.heap.arena n q k live;
          words = λ q k x live le lt. elim (law.apart m.heap.arena n q k got live) [
            | inl before ↦ ground arith
            | inr behind ↦ ground arith
          ];
          cells = λ q k x live le lt. elim (law.apart m.heap.arena n q k got live) [
            | inl before ↦ ground arith
            | inr behind ↦ ground arith
          ];
          low_cells = λ x le. ground arith;
        })
  ]

  -- The last step of `cel_map_create`, once both regions are there.
  created-IsMap :
      (m : Memory ar.State) (map_slot size p e : ℕ)
      → law.Live m.heap.arena p 16
      → e + 48 * size ≤ 2 ^ 32
      → (0 < size → low ≤ e)
      → (0 < size → law.Live m.heap.arena e (48 * size))
      → IsMap ar key_eq key_hash low law
          (write
            (set_header m p
              (record { count = 0; capacity = size; entries_offset = e; index_offset = 0 }))
            map_slot
            (map_arena p))
          map_slot
          size
          []
  created-IsMap m map_slot size p e header fits base run = record {
    p = p;
    e = e;
    cell = ground arith;
    count = ground arith;
    capacity = ground arith;
    entries = ground arith;
    no_index = ground arith;
    room = omega arith;
    fits = fits;
    above = base;
    header_live = header;
    run_live = run;
    shows = tt;
    distinct = λ i hi. absurd (omega arith);
    stored = λ j hj. absurd (omega arith);
  }

  -- A run that is given.
  entries_block-IsGiven :
      (m : Memory ar.State) (size : ℕ)
      → ((entries_block ar key_eq key_hash m size).0 == 0) ≡ false
      → (48 * size ≤ 2 ^ 32 - 8)
        × IsGiven m
            (48 * size)
            (entries_block ar key_eq key_hash m size).0
            (entries_block ar key_eq key_hash m size).1
  unfolding entries_block entries_bytes_checked
  entries_block-IsGiven m size = elim (Bool-cases (ltb (2 ^ 32 - 8) (48 * size))) [
    | inl large ↦ rw large (λ h. cc)
    | inr small ↦ elim (Bool-cases (48 * size == 0)) [
      | inl nothing ↦ rw (small, nothing) (λ h. cc)
      | inr some_bytes ↦ rw (small, some_bytes) (λ h. (ground arith, request-IsGiven m (48 * size)))
    ]
  ]

  -- When `cel_map_create` leaves a map in the cell, the map is empty and has room for `size` entries.
  pub create-IsMap :
      (m : Memory ar.State) (map_slot size : ℕ)
      → (kind ((cel_map_create ar key_eq key_hash m map_slot size).cell map_slot) == cel_map_arena)
        ≡ true
      → IsMap ar key_eq key_hash low law
          (cel_map_create ar key_eq key_hash m map_slot size)
          map_slot
          size
          []
  unfolding cel_map_create
  create-IsMap m map_slot size =
      let given = request-IsGiven m 16 in
      elim (Bool-cases ((request ar key_eq key_hash m 16).0 == 0)) [
        | inl nothing ↦ rw nothing (λ h. ground arith)
        | inr header ↦ elim (Bool-cases (size == 0)) [
          | inl empty ↦
              rw (header, empty)
                (λ h.
                  created-IsMap (request ar key_eq key_hash m 16).1 map_slot size
                    (request ar key_eq key_hash m 16).0 0 (given.live header) (ground arith)
                    (λ z. ground arith) (λ z. ground arith))
          | inr entries ↦
              let e =
                (entries_block ar key_eq key_hash (request ar key_eq key_hash m 16).1 size).0 in
              elim (Bool-cases (e == 0)) [
                | inl nothing ↦ rw (header, entries, nothing) (λ h. ground arith)
                | inr run ↦
                    let (bytes, block) =
                      entries_block-IsGiven (request ar key_eq key_hash m 16).1 size run in
                    rw (header, entries, run)
                      (λ h.
                        created-IsMap
                          (entries_block ar key_eq key_hash (request ar key_eq key_hash m 16).1
                            size).1
                          map_slot size (request ar key_eq key_hash m 16).0 e
                          (block.still (request ar key_eq key_hash m 16).0 16 (given.live header))
                          (let top = block.fits run in ground arith) (λ z. block.above run)
                          (λ z. block.live run))
              ]
        ]
      ]

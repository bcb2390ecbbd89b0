-- ===== src/Lib.antt =====
-- cel-wasm: an ahead-of-time compiler and runtime for CEL, the Common Expression Language.
--
-- A CEL expression is parsed and checked (compiler/frontend), annotated and laid out
-- (compiler/codegen/resolve_pass, layout_pass), and lowered to a WebAssembly module that calls the
-- kernels of runtime/ on 24-byte cells of linear memory. A cell of the workspace comes from the
-- slot allocator (compiler/codegen/slot_allocator). The module carries its description in custom
-- sections (abi/wasm_binary), with the types of its functions as messages (abi/celfn_wire). The host
-- (eval/) loads the module, binds variables, and may mark attributes as unknown by patterns
-- (eval/attribute); an unknown then travels through the kernels as a set of attribute ids.
--
-- What each module models:
--
-- Abi.WasmBinary: abi/wasm_binary.cc, all functions. A span of bytes is a list of numbers, a status
--   a constructor. The walk over the sections is recursion on fuel, one round for each byte of the
--   binary; every round reads at least one byte, so it never runs out. The loop that writes a LEB128
--   number recurses on the accessibility of the value, the one that reads it on the five bytes that
--   the code allows.
-- Abi.CelfnWire: abi/celfn_wire.cc, TypeFromCelType, TypeEquals and RequiredFunctionFromDecl, over
--   the messages of abi/cel_abi.proto. RenderType and RenderSignature are left out.
-- Shared.StaticType: shared/type.h and shared/type.cc. A type is one of the factories' results.
-- Compiler.SlotAllocator: compiler/codegen/slot_allocator.h and .cc, all methods. The state is a
--   record with the fields of the class, uint32_t arithmetic is written with its wrap-around, and a
--   failed check is none. World adds a client, which holds cells, and the relation of what it can
--   reach.
-- Eval.Attribute: eval/attribute.h and eval/attribute.cc. Names are lists of bytes. Parser is the
--   class PatternParser: its fields, with positions into the text, are a record, Step and its three
--   cases are functions of the same names, and Run is recursion over the rest of the text.
-- Runtime.Value: the value union of runtime/cel_data.h, the helpers of runtime/cel_internal.h and
--   the merge of unknown sets of runtime/cel_3vl.c. Memory has a map from offsets to cells and one
--   from offsets to the words of unknown sets; the arena (runtime/cel_arena.c) is an interface that
--   the kernels take as a parameter, with its Laws. A kernel reads its operands before it
--   writes, as the code does, so the output may be one of the operands.
-- Runtime.ThreeValued: && and || and ! of runtime/cel_3vl.c.
-- Runtime.Arith: runtime/cel_arith.c, all kernels. An int64_t is an integer in its range and a
--   uint64_t a number; the overflow builtins give none. The arithmetic on doubles is a parameter on
--   bit patterns, and so is the negation of INT64_MIN, which C leaves undefined.
-- Runtime.Compare: runtime/cel_compare.c: the kernels within a kind, the ladder over int, uint and
--   double, and the equality of numeric map keys. The comparisons and casts of doubles are a parameter.
-- Runtime.BumpArena: runtime/cel_arena.c, the build for wasm. The chain of chunks is a list from the
--   youngest, where allocation bumps, to the head; malloc and free are a parameter with the laws
--   that the C standard gives them, and a trap is a result. Steps is the specification, a relation
--   on the regions handed out since the last reset, Refine and Reset the simulation, call by call,
--   and Serves gives the kernels their arena: it fills the interface of Runtime.Value.
--   The branch for a native test build is left out.
-- Runtime.MapKey: equality and hash of map keys: cel_map_key_eq of runtime/cel_compare.c,
--   cel_value_eq of runtime/cel_runtime.c, the spans of runtime/cel_internal.h, and the hash of
--   runtime/cel_map_hash.h. What the doubles satisfy is the record Lawful of Hash.
-- Runtime.MapIndex: runtime/cel_map_index.c and the probing half of runtime/cel_map_hash.h. The
--   control bytes and the slots of an index are two maps. A probe is recursion on fuel, one round
--   for each group of eight slots; the triangular steps visit every slot within these rounds and the
--   load factor leaves an empty one, so it never runs out. The loop over the lanes of a group has
--   eight rounds, one for each lane, and the doubling of the slots 32, one for each bit.
-- Runtime.Maps: the maps of runtime/cel_runtime.c that stand in the arena, with the build of their
--   index, and the calls that the code of a map literal makes (compiler/codegen/expr_lower.cc). A
--   header is four words and an entry two cells; the arena is the interface of Runtime.Value with
--   its Laws. The code of a key or a value is a function from a memory to an offset and a memory. A
--   host import is a parameter. The loop that doubles a capacity has 64
--   rounds, one for each bit. Optional entries, the merge of maps, the iterators and the equality
--   of maps are left out.
-- Runtime.Time: runtime/cel_time.c: arithmetic, comparison, accessors and conversions. The accessors
--   with a time zone only call the host and are left out. Civil is the calendar; its theorems cover
--   the years 1 to 9999, the range of timestamps.
-- Prelude: integers, lists and tests over the native numbers, and bits.
--
-- Not modelled: the frontend and the code generator, which drive cel-cpp and Binaryen; the engine
-- and the host functions, which drive wasmtime and protobuf; the remaining kernels (conversion,
-- lists, deep equality, strings, formatting, optionals, the math and network extensions); and
-- the tools, tests and documents. Log output is left out everywhere.
pub mod Prelude
pub mod Shared
pub mod Abi
pub mod Compiler
pub mod Runtime
pub mod Eval

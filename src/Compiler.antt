-- ===== src/Compiler.antt =====
-- compiler/: from a checked expression to a wasm module.
pub mod SlotAllocator

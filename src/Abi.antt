-- ===== src/Abi.antt =====
-- abi/: the format of a compiled Program.
pub mod WasmBinary
pub mod CelfnWire

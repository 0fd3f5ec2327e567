-- ===== src/Lib.antt =====
-- A verification library for the C++ sources of Shibori Engine, a container format and its building
-- blocks for compressed database blocks.
--
-- The parts and the files that model them:
-- - Error: include/shibori/engine/error.hpp, src/error.cpp and include/shibori/engine/result.hpp.
--   `Result` is the sum of a value and an `Error`; `if (!status) return …` is `>>=` or `>>`. Every
--   other part returns its errors this way, with the code, the operation and the message.
-- - CheckedArithmetic: src/checked_arithmetic.cpp. Operands are numbers below 2 ^ 64, and the
--   wrap-around of the addition and the multiplication is written out.
-- - Integrity.Crc32c: the CRC32C of src/integrity.cpp, include/shibori/engine/integrity.hpp and
--   src/crc32c_x86.cpp. The processor's instructions are the fields of `Backend`; what a processor
--   documents of them is `IsCrc32cBackend`.
-- - Integrity.Digest: the hexadecimal text of a digest, `Blake3Digest` of the same files.
-- - Format.Endian, Format.Preamble, Format.Record: src/format. A span of bytes is a list of numbers,
--   each below 256 where `IsBytes` says so; a fixed array is a list that keeps its length. Records
--   are framed and parsed by Format.Record, which calls Format.Endian for its numbers,
--   CheckedArithmetic for the lengths and Integrity.Crc32c for both checksums.
--   `RecordSequenceTracker::accept` returns the tracker afterwards with its answer.
-- - Resource.Limits: the limits of src/resource.cpp and their validation.
-- - Io: src/io.cpp and include/shibori/engine/io.hpp. `ByteSource` and `ByteSink` are records of
--   operations on a device's state. Another thread may cancel a token at any moment, so a token is
--   the answers that successive polls get. `read_exact` and `write_all` run on fuel, one round more
--   than the span has bytes: every round completes at least one byte, and Io.Termination shows that
--   it is enough over every device. Io.Memory has the two memory devices, where the allocator is a
--   parameter.
-- - LogicalType: src/logical_type.cpp and include/shibori/engine/logical_type.hpp. An enumeration has
--   the values that no enumerator names besides, as the source checks for them.
-- - Utf8: the UTF-8 check that src/schema.cpp and src/block.cpp both define. A round of its loop
--   has the bytes that are left; there are at most as many rounds as bytes, which is the fuel.
-- - Column: src/column.cpp. A shared constant buffer is its contents. `Column.Bitmap` has the bit
--   expressions and a bitmap as a list of Booleans, `Column.Validity` the bitmap of present rows and
--   its builder, `Column.Storage` a column, and `Column.Building` what the three column builders
--   have in common, as a record of a state, its requests and their laws.
-- - Schema: src/schema.cpp, with names as bytes and the metadata map as a list in the map's order.
-- - Block: src/block.cpp. A block's builder takes a schema and columns, checks each column with
--   `validate_column`, and the finished block's `variable_value` slices a payload by its offsets.
--   An operation of a builder returns its answer and the builder afterwards, and each allocation is
--   a Boolean that says whether there is room. What a finish moves out of a builder stays in the
--   model: `finished` is checked before anything else, so it is never read again.
-- - Base: Boolean tests, lists by native positions, bytes and bits.
--
-- `std::size_t` is taken to have 64 bits. Not modelled: the file devices (calls of stdio), BLAKE3
-- (a third-party library), resource budgets, the version constants, and the description of an error
-- for people.
pub mod Base
pub mod Error
pub mod CheckedArithmetic
pub mod Format
pub mod Integrity
pub mod Resource
pub mod Io
pub mod LogicalType
pub mod Utf8
pub mod Schema
pub mod Column
pub mod Block

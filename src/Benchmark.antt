-- ===== src/Benchmark.antt =====
-- The benchmark of a CPU or a GPU: app/pickscore/benchmark_service.py. The text functions, the fuzzy
-- matcher of rapidfuzz and Python's hash come in as a record of functions.
pub mod Tables
pub mod Matching
pub mod Lookup
pub mod Gpu
mod Cached
mod Answers
mod Marks
mod Paths
mod Integrated
mod Examples

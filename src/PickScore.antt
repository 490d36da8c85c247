-- ===== src/PickScore.antt =====
-- The scoring engine: app/pickscore/engine.py. The floats of Python and its operations on text come
-- in as a record, and what the benchmark tables resolve a CPU and a GPU to as arguments. A mode is
-- personalized exactly if there is a preference, as `calculate_pick_score` sets it.
pub mod Platform
pub mod Factors
pub mod Weights
pub mod Total
pub mod Bounds
pub mod Boosts
pub mod Withheld
pub mod Whole
mod Examples

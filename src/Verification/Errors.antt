-- ===== src/Verification/Errors.antt =====
-- verification/src/error.rs, storage/src/error.rs and verification/src/constants.rs. The text of a
-- `DatabaseError` is left out.
use rust_randchain_prototype.Prelude.{ℕ}

pub data StorageError : Type 0 where
  database_error cannot_canonize cannot_decanonize unknown_parent ancient_fork : StorageError

pub data Error : Type 0 where
  duplicate pow vdf futuristic_timestamp timestamp : Error
  difficulty : (expected actual : ℕ) → Error
  non_final_block old_version_block : Error
  database : StorageError → Error

abbrev pub block_max_future : ℕ
block_max_future = 7200

abbrev pub retargeting_factor : ℕ
retargeting_factor = 4

abbrev pub target_spacing_seconds : ℕ
target_spacing_seconds = 600

abbrev pub double_spacing_seconds : ℕ
double_spacing_seconds = 1200

abbrev pub target_timespan_seconds : ℕ
target_timespan_seconds = 1209600

abbrev pub min_timespan : ℕ
min_timespan = 302400

abbrev pub max_timespan : ℕ
max_timespan = 4838400

abbrev pub retargeting_interval : ℕ
retargeting_interval = 2016

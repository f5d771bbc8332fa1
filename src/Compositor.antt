-- ===== src/Compositor.antt =====
-- src/laion/native/fixed_block_compositor.cpp: the exact search over fixed blocks. The objects of a query's segments
-- are decoded, their rows filtered and merged through a heap of the segments' heads, the query's own row is
-- left out, and the rest is scored in batches.
pub mod Heap
pub mod Stream
pub mod Merge
pub mod Score
pub mod Prepare
pub mod Search
pub mod Pending
pub mod Step
pub mod Top
pub mod Drain
pub mod Union
pub mod Located
pub mod Started
pub mod Found
pub mod Searched
pub mod Scored
pub mod Returns
pub mod Tests
mod MergeTests
use booleann.Base.{ℕ, Bool, List, ℤ}
use booleann.Base.Double.{Double}
use booleann.Base.Result.{Result}

-- `kFbMaxObjects`
abbrev pub max_objects : ℕ
max_objects = 64

-- `kFbMaxSegments`
abbrev pub max_segments : ℕ
max_segments = 64

-- `kFbMaxGlobalObjects`
abbrev pub max_global_objects : ℕ
max_global_objects = 65535

-- `kFbMaxDecodedRows`
abbrev pub max_decoded_rows : ℕ
max_decoded_rows = 14044

-- `kFbBatchIds`
abbrev pub batch_ids : ℕ
batch_ids = 64

-- `kFbTopK`
abbrev pub top_k : ℕ
top_k = 10

-- An object: its payload, if it is not null, and the number of its rows.
pub record Object : Type 0 where
  pub has_payload : Bool
  pub payload : ℕ → ℕ
  pub object_rows : ℕ

-- A column of attribute values: whether its pointers are not null, the kind, and the values of either kind.
pub record Attribute (d : Double) : Type 0 where
  pub has_values : Bool
  pub has_valid : Bool
  pub kind : ℕ
  pub doubles : ℕ → d.Value
  pub integers : ℕ → ℤ
  pub valid : ℕ → Bool

-- The descriptor of a segment. A filter code is 0 for none, or one more than the number of an attribute.
pub record Segment (d : Double) : Type 0 where
  pub object : ℕ
  pub filter_code : ℕ
  pub lower : d.Value
  pub upper : d.Value

-- The scores, which are sums of 32-bit floats: what `fb_score_batch` makes of a batch of rows, and the sorted
-- hits. A status other than 0 is an error: 4 for a row at the number of base rows or above, 5 for rows that do not
-- increase, 6 for a distance that is not finite. Compositor/Score has the scorer of the program.
pub record Scorer : Type 1 where
  pub Scores : Type 0
  pub Hit : Type 0
  pub no_scores : Scores
  pub score_batch : List ℕ → Scores → Result ℕ Scores
  pub best_size : Scores → ℕ
  pub sorted_hits : Scores → List Hit

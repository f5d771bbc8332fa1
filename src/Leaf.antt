-- ===== src/Leaf.antt =====
-- src/laion/native/leaf_posting_merge.cpp: postings are validated, and one or two of them are merged
-- into the sorted support of a query, less the query's own row.
pub mod Emit
pub mod Merge
pub mod Entry
pub mod Emission
pub mod Loops
pub mod Selection
pub mod Result
pub mod Safety
pub mod Validate
mod Tests

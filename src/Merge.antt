-- ===== src/Merge.antt =====
-- internal/merge: which records describe one person or one meeting, and how they are shown as one.
mod Similarity
pub mod Edits
mod UnionFind
mod Normalize
mod Fingerprint
mod Score
mod Cluster
mod Fields
pub mod Forest
pub mod Components
pub mod Groups
pub mod Partition
pub mod Symmetry
pub mod Union
mod Examples
unfoldable pub use Similarity.*
unfoldable pub use UnionFind.*
unfoldable pub use Normalize.*
unfoldable pub use Fingerprint.*
unfoldable pub use Score.*
unfoldable pub use Cluster.*
unfoldable pub use Fields.*

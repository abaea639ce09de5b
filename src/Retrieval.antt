-- ===== src/Retrieval.antt =====
-- backend/app/services/retrieval.py and keyword_search.py: dense, sparse and hybrid search over the
-- chunks of a tenant.
pub mod Interface
mod Ranking
mod Keyword
mod Hybrid
pub mod Scoped
pub mod Results
pub use Interface.{Engine}
unfoldable pub use Ranking.*
unfoldable pub use Keyword.*
unfoldable pub use Hybrid.*

-- ===== src/License.antt =====
-- License compliance: backend/internal/license.
pub mod Token
pub mod Node
pub mod Result
pub mod Parse
pub mod Category
pub mod Leaf
pub mod Evaluate
pub mod Policy
pub mod Exceptions
pub mod Check
pub mod Source
pub mod Cache
pub mod Examples

-- ===== src/Request.antt =====
-- lib/operator.v2/request.go: the steps that every controller takes on the resource it reconciles.
-- A Go method that writes its request is an `Exec` over `State`; it may panic.
mod Defs
mod Failing
mod Ensuring
mod Checks
mod Annotated
pub mod Stopping
pub mod Converging
pub mod Reporting
pub mod Keeping
pub mod Reports
pub mod Worlds
unfoldable pub use Defs.*
unfoldable pub use Failing.*
unfoldable pub use Ensuring.*
unfoldable pub use Checks.*
unfoldable pub use Annotated.*

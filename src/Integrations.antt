-- ===== src/Integrations.antt =====
-- src/logs_interceptor/integrations: what other libraries hand to the logger. `log` is the logger's,
-- which may raise, and `W` the state behind it.
pub mod Handlers
pub mod Requests
pub mod Tasks
pub mod Names
pub mod RequestIds
mod Examples

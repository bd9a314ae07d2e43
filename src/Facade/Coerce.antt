-- ===== src/Facade/Coerce.antt =====
-- src/logs_interceptor/__init__.py: `_coerce_config`.
pub mod Readers
pub mod Sections
pub mod Whole
pub mod Written
pub mod Spellings
pub mod Given
mod Examples

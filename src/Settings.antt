-- ===== src/Settings.antt =====
-- src/logs_interceptor/config.py, application/config_service.py, utils.py and __init__.py: the
-- configuration, from the environment and the caller to the values that the components read.
pub mod Numbers
pub mod Records
pub mod Validate
pub mod Resolve
pub mod Merge
pub mod Parse
pub mod Env
pub mod Valid
mod Examples

-- ===== src/Common.antt =====
-- src/common: task types, messages, text utilities and the configuration.
pub mod TaskType
pub mod JsonUtil
pub mod NetUtil
pub mod CurlHttp
pub mod World
pub mod Config
pub mod StringUtil

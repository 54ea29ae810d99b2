-- ===== src/Assistant/Builtin.antt =====
-- internal/domain/assistant/builtin: the plugins that the service runs itself.
pub mod DateTime
pub mod Prompts
pub mod Errors
pub mod Reminders
pub mod Locations
pub mod Meetings

-- ===== src/Assistant.antt =====
-- internal/domain/assistant: which of a user's plugins a conversation may use, how an utterance is
-- read, the turns of a conversation, and the executors of plugins.
pub mod Builtin
pub mod Patterns
pub mod ReminderArguments
pub mod LocationArguments
pub mod Keywords
pub mod MeetArguments
pub mod Prompts
pub mod Session
pub mod Installed
pub mod Eligibility
pub mod Times
pub mod WakeWord
pub mod Stripping
pub mod Panics
pub mod Composio
pub mod Executors
pub mod Executions
pub mod Agreed
pub mod Ahead
pub mod Routing
pub mod Wired
pub mod Conversation
mod Samples

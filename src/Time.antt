-- ===== src/Time.antt =====
-- What the program uses of Go's `time` package. An instant is in nanoseconds since the zero time of
-- Go, a Monday at midnight UTC; what Go would take for an earlier time counts as that one. A
-- location is a fixed offset from UTC, as UTC and Asia/Jakarta are.
pub mod Civil
pub mod Format
pub mod Parse
pub mod Dates
pub mod RoundTrip
mod Samples

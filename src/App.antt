-- ===== src/App.antt =====
-- crates/app: the worker of a connection, its queue and what it reports, the state behind the log
-- panes and the chart, and the profiles.
pub mod Queue
pub mod Ring
pub mod Plot
pub mod Job
pub mod Closes
pub mod Policy
pub mod Bus
pub mod Worker
pub mod Profiles

-- ===== src/Tests.antt =====
-- The theorems at concrete inputs, with concrete parameters, for every part.
mod OpenSsl
mod Texts
mod Pools
mod Jobs
mod Alarms
mod Lives
mod Routes
mod Configs
mod Results
mod Received
mod Perf
mod Tools
mod Notices
mod Nebs
mod Sending

-- ===== src/Examples.antt =====
-- The theorems about the program at concrete inputs, and tests of the definitions.
mod ThresholdRuns
mod Histories
mod Pools
mod Codecs
mod Frames
mod Sessions
mod Servers
mod Stores
mod HealthProbes
mod Programs
mod ValkeyServers
mod SqliteFiles
mod Upgrades
mod Audits
mod Traffic
mod TlsFiles

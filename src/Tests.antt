-- ===== src/Tests.antt =====
-- The theorems at concrete inputs, and runs of the model.
mod Compute
mod Data
mod VolumeRuns
mod SnapshotRuns
mod NodeRuns
mod OtherRuns
mod ServerRuns
mod HistoryRuns

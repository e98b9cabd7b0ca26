-- ===== src/Examples.antt =====
-- Runs of the definitions on concrete inputs.
pub mod CoreRuns
pub mod WorkerRuns
pub mod StorageRuns
pub mod QueueRuns
pub mod SettingsRuns
pub mod BridgeRuns
pub mod ViewRuns
pub mod PageRuns
pub mod IntakeRuns
pub mod FilesRuns

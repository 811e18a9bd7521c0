-- ===== src/Tests.antt =====
-- Runs at concrete inputs.
pub mod Server
pub mod Journal
pub mod StateRuns
pub mod LogRuns
pub mod PairRuns
pub mod RuntimeRuns
pub mod ControlRuns
pub mod RecoveryRuns
pub mod Keys
pub mod LeaderRuns
pub mod NodeRuns
pub mod OperatorRuns
pub mod ServeRuns
pub mod ClientRuns
pub mod FailoverRuns
pub mod RetryRuns
pub mod SystemRuns
pub mod BenchRuns

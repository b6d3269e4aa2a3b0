-- ===== src/Tests.antt =====
-- Runs of the models on small inputs, and each theorem at an input.
mod PoolRuns
mod ReplacerRuns
mod TreeRuns
mod InsertRuns
mod JoinRuns
mod RemoveRuns
mod RepairRuns
mod SchedulerRuns
mod TraversalRuns

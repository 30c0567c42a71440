-- ===== src/Tests.antt =====
-- The theorems at concrete orders, graphs and schedulers.
mod CheckRuns
mod Data
mod GraphRuns
mod ManagerRuns
mod TaskRuns
mod SchedulerRuns
mod InterpreterRuns
mod HandlerRuns
mod ActionCheckRuns
mod DeclarationRuns
mod ValidationRuns

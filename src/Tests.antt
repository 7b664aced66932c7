-- ===== src/Tests.antt =====
-- The theorems at concrete inputs, and runs of the models.
mod ArrayRuns
mod ShellRuns
mod TextRuns
mod HashRuns
mod StringRuns
mod PathRuns
mod QueueRuns
mod U32Runs
mod FmemRuns
mod GetoptRuns
mod EditRuns
mod CrcRuns
mod GlobRuns
mod CleanRuns

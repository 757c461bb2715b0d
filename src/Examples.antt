-- ===== src/Examples.antt =====
-- Concrete runs of the theorems.
mod SmpRuns
mod SenderRuns
mod CdmpRuns
mod StateRuns
mod ServiceRuns
mod DfuRuns
mod DomainRuns

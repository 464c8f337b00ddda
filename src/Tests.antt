-- ===== src/Tests.antt =====
-- The theorems at concrete tables and calls, and runs of the definitions.
mod Insertion
mod ReportRuns
mod SectionRuns
mod DwarfRuns
mod HashRuns
mod TaskRuns
mod PcontrolRuns
mod HistogramRuns
mod OptionRuns
mod MergeRuns
mod WrapperRuns

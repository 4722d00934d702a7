-- ===== src/Examples.antt =====
-- Concrete runs: each theorem of the development's results at an input where its hypotheses hold.
mod TypesExamples
mod PolicyExamples
mod AuditExamples
mod KeyExamples
mod ForwarderExamples
mod IngestionExamples
mod AnalyzerExamples
mod DetectorExamples
mod ExporterExamples
mod ServiceExamples
mod StoreExamples

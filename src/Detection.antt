-- ===== src/Detection.antt =====
-- agent/detection: the rule engine, the contract of its signals, facts about one event, and when two
-- events belong together.
pub mod Model
pub mod Contracts
pub mod Engine
pub mod Accounting
pub mod Grounding
pub mod TcpFlags
pub mod EventFacts
pub mod Related
pub mod Symmetry
pub mod Precedence
pub mod Clusters
pub mod Groups
pub mod Absorbing
pub mod Partition
pub mod Sharing
pub mod Attached
pub mod Attaching
pub mod Suppression
pub mod Silence
pub mod Samples
pub mod Scoring
pub mod Severities
pub mod Rating
pub mod Bundles
pub mod Merging
pub mod Merged
pub mod MergeRuns
pub mod Titles
pub mod Confidences
pub mod Building
pub mod Covering
pub mod Incidents
pub mod Repeats
pub mod Repeated
pub mod Results
pub mod Reported
pub mod Analysis
pub mod Analyzed
mod Tests
pub mod MergeTests
mod IncidentTests
mod AnalysisTests

-- ===== src/Worker.antt =====
-- scrapeforge/worker: the stages of the pipeline.
pub mod Messages
pub mod TransformWorker
pub mod ScraperWorker
pub mod Scheduler
pub mod SummarizeWorker
pub mod CommunityIngestWorker
pub mod Pipeline
pub mod Samples
mod Examples

-- ===== src/Pipeline.antt =====
-- scrapeforge/pipeline: the jobs that run beside the workers.
pub mod Retention
pub mod Jobs

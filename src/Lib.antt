-- ===== src/Lib.antt =====
-- ScrapeForge: a web scraping framework with an ingestion pipeline, in Python.
--
-- A scrape goes through the engine (scrapeforge/core/engine.py): the circuit breaker may refuse
-- the domain, the rate limiter makes the call wait, the registry names the scraper class, the
-- proxy rotator gives a proxy, the scraper class fetches the page, and the outcome goes back to
-- the breaker and to the sink. In the pipeline, the scraper worker takes a job from a message
-- queue, calls the engine, archives the raw payload in the object store and publishes a pointer
-- to it; the transform worker takes the pointer, reads the payload, validates it, extracts the
-- fields, and stores the article and the job's status in the serving database. The scheduler
-- puts a job on the queue for each source, and the retention deletes old articles. Beside the
-- queue, jobs scrape Substack, Reddit and news feeds page by page, straight into the serving
-- database or into a JSONL file; the summarize worker asks a language model for a summary of each
-- article; and the digest reads the articles again.
--
-- Files, and the code they model:
--   Core/CircuitBreaker   scrapeforge/core/circuit_breaker.py (`record` is `record_outcome`)
--   Core/RateLimiter      scrapeforge/core/rate_limiter.py
--   Core/ProxyRotator     scrapeforge/core/proxy_rotator.py
--   Core/Registry         scrapeforge/core/registry.py
--   Core/Models           scrapeforge/core/models.py
--   Exceptions            scrapeforge/exceptions.py, and actions that change state and may raise
--   Core/Queue            scrapeforge/core/queue/base.py: the port and `consume_once`, `drain`
--   Core/Queue/Memory     scrapeforge/core/queue/memory.py
--   Core/Queue/Redis      scrapeforge/core/queue/redis_queue.py
--   Core/Engine           scrapeforge/core/engine.py (`scrape`)
--   Core/Db               scrapeforge/core/db/models.py and repositories.py, for jobs
--   Core/Storage          scrapeforge/core/storage/base.py and postgres.py
--   Core/Jsonl            scrapeforge/core/storage/jsonl.py
--   Core/Llm              scrapeforge/core/llm/base.py and openai_compatible.py: replies, retries
--   Core/ObjectStore      scrapeforge/core/objectstore/base.py and memory.py
--   Utils/Parsers         scrapeforge/utils/parsers.py
--   Utils/Validators      scrapeforge/utils/validators.py
--   Worker/Messages       scrapeforge/worker/messages.py
--   Worker/ScraperWorker  scrapeforge/worker/scraper_worker.py
--   Worker/TransformWorker scrapeforge/worker/transform_worker.py
--   Worker/Pipeline       both workers after each other
--   Worker/Scheduler      scrapeforge/worker/scheduler.py (`enqueue_due_sources`)
--   Worker/SummarizeWorker scrapeforge/worker/summarize_worker.py
--   Worker/CommunityIngestWorker scrapeforge/worker/community_ingest_worker.py
--   Pipeline/Retention    scrapeforge/pipeline/retention.py (`prune_articles`)
--   Pipeline/Jobs         scrapeforge/pipeline/jobs.py, the three ingestions
--   Scrapers/Community/Reddit   scrapeforge/scrapers/community/reddit.py
--   Scrapers/Community/Substack scrapeforge/scrapers/community/substack.py
--   Scrapers/Feeds        scrapeforge/scrapers/community/substack_rss.py and public/news_rss.py
--   Digest/Models         scrapeforge/digest/models.py
--   Digest/Matcher        scrapeforge/digest/matcher.py
--   Digest/Relevance      scrapeforge/digest/relevance.py
--   Digest/Delivery       scrapeforge/digest/user_digest.py, and `deliver_all` of service.py
--   Digest/Articles       scrapeforge/digest/service.py (`get_articles` of a JSONL file)
-- The modules below these, named for what they prove, hold the theorems; Examples modules hold
-- tests and concrete runs. Prelude has the shared tests, lists, sorting, Python's dict, and its
-- operations on texts.
--
-- Objects are records, and a method takes and gives the object's state. Methods that may raise
-- are actions: the state comes back beside the exception. Clock readings are arguments, in ticks.
-- The Redis server, the JSON codec, PostgreSQL, the HTML and XML parsers, SHA-256, the proxies'
-- probe, the language model, the e-mail sender and the scraper classes' network calls are
-- parameters; `RedisClient`, `Codec` and `Database` state the documented behaviour that the code
-- relies on, and Core/Queue/Redis/Server and Core/Db/Tables are implementations in memory that
-- have it.
--
-- Loops without a bound run on fuel. `drain`, the workers' `while await queue.consume_once(...)`,
-- is given more than the number of deliveries that the waiting messages can take (one each, and
-- the retries that are left); a run of the summarize worker more than the rows without a summary;
-- `scrape_subreddit` more than its limit, and `scrape_publication` more than the entries of the
-- archive, since each page that does not end the loop brings one more.
--
-- Not modelled: concurrent scrapes (`batch_scrape`), the JSONB columns but for the driver and the
-- summary, the drivers, fingerprints and stealth browsers, the prompt and the HTTP client of the
-- language model, embeddings, MinIO, the HTTP API and the command lines, which are for the most
-- part calls of other libraries; the digest's rendering and sending, its database queries, and the
-- synchronisation of users.
pub mod Prelude
pub mod Exceptions
pub mod Core
pub mod Utils
pub mod Worker
pub mod Pipeline
pub mod Scrapers
pub mod Digest

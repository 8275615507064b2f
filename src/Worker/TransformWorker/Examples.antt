-- ===== src/Worker/TransformWorker/Examples.antt =====
-- A pointer to a page of 500 characters, handled once, twice, and by a run of the worker.
use scraper_v_hezzian.Worker.Samples.{library, html_parser, deps, page, pointer, times, fetch}
use scraper_v_hezzian.Worker.TransformWorker.Ways.{new_row}
use scraper_v_hezzian.Core.Queue.Ends.{AreHome}
use scraper_v_hezzian.Core.Queue.Drain.{total_left}
use scraper_v_hezzian.Worker.TransformWorker.Runs.{AreLong, run_transform_worker-AreLong}
use scraper_v_hezzian.Core.Queue.{Message}
use scraper_v_hezzian.Exceptions.{ok}
use scraper_v_hezzian.Prelude.Dict.{Dict}
use Prim.Native.String.{count}
use scraper_v_hezzian.Prelude.Dict
use scraper_v_hezzian.Prelude.{
  string_eq, inl, inr, ◌≡◌, String, none, some, true, [], ◌∷◌, refl, ℕ, ◌≤◌, ◌≢◌, arith, ◌<◌, List,
}
use scraper_v_hezzian.Core.Queue.Memory.{waiting, memory_port, InMemoryMessageQueue}
use scraper_v_hezzian.Core.Db.Tables.{tables, queued_job, with_job, Tables}
use scraper_v_hezzian.Core.Storage.Upsert.{merged}
use scraper_v_hezzian.Core.Storage.{url_id}
use scraper_v_hezzian.Core.ObjectStore.{object_not_found}
use scraper_v_hezzian.Utils.Validators.{response_is_valid}
use scraper_v_hezzian.Worker.Messages.{job_message, result_pointer, Payload}
use scraper_v_hezzian.Worker.TransformWorker.Steps.{as_running, as_done, as_error}
use scraper_v_hezzian.Worker.TransformWorker.Lifecycle.{
  handle_result_pointer-done, handle_result_pointer-error,
}
use scraper_v_hezzian.Worker.TransformWorker.Redelivery.{handle_result_pointer-again}
use scraper_v_hezzian.Worker.TransformWorker.{
  run_transform_worker, Times, selectors_for, handle_result_pointer,
}

valid : response_is_valid html_parser page (selectors_for deps "a.com") 500 ≡ true
unfolding response_is_valid scraper_v_hezzian.Utils.Validators.has_signature Dict.get selectors_for
    scraper_v_hezzian.Core.Registry.get_scraper_for scraper_v_hezzian.Core.Registry.split
    scraper_v_hezzian.Utils.Validators.long_enough scraper_v_hezzian.Utils.Parsers.main_text
    scraper_v_hezzian.Utils.Parsers.first_match
valid = refl

there : tables.job with_job "job" ≡ some queued_job
unfolding scraper_v_hezzian.Core.Db.Tables.find_job
there = refl

handle_result_pointer-done_example :
    let (r, db') = handle_result_pointer deps times fetch pointer with_job in
    let new = new_row deps 2 pointer page in
    (r ≡ ok tt)
    × (tables.job db' "job" ≡ some (as_done deps 3 (as_running deps 1 queued_job)))
    × (tables.article db' (url_id library "u")
        ≡ some (merged new (tables.article with_job (url_id library "u"))))
    × (500 ≤ count new.content)
    × ((k : String) → url_id library "u" ≢ k → tables.article db' k ≡ tables.article with_job k)
handle_result_pointer-done_example =
    handle_result_pointer-done deps times fetch pointer with_job queued_job there page refl refl
      valid

handle_result_pointer-error_example :
    let (r, db') =
      handle_result_pointer deps times (λ key. object_not_found key) pointer with_job in
    (r ≡ ok tt)
    × ((text : String) × (tables.job db' "job"
          ≡ some (as_error deps 3 text (as_running deps 1 queued_job))))
    × ((k : String) → tables.article db' k ≡ tables.article with_job k)
handle_result_pointer-error_example =
    handle_result_pointer-error deps times (λ key. object_not_found key) pointer with_job queued_job
      there (inr (inl ("raw/public/u", refl)))

-- A database without jobs.
abbrev no_job : Tables
no_job = record { jobs = []; articles = Dict.empty }

not_there : tables.job no_job "job" ≡ none
unfolding scraper_v_hezzian.Core.Db.Tables.find_job
not_there = refl

abbrev later : Times
later = record { started = 11; fetched = 12; finished = 13 }

handle_result_pointer-again_example :
    let once = (handle_result_pointer deps times fetch pointer with_job).1 in
    let twice = (handle_result_pointer deps later fetch pointer once).1 in
    ((k : String)
      → tables.article twice k
        ≡ tables.article (handle_result_pointer deps later fetch pointer with_job).1 k)
    × (tables.job twice "job"
        ≡ some
            (as_done deps 13 (as_running deps 11 (as_done deps 3 (as_running deps 1 queued_job)))))
handle_result_pointer-again_example =
    handle_result_pointer-again deps times later fetch pointer with_job queued_job page there refl
      refl valid

-- A queue with the pointer and with a message of another shape.
abbrev messages : List (Message Payload)
messages =
    record { id = "1"; queue = "results"; payload = result_pointer pointer; attempts = 0 }
    ∷ record {
      id = "2";
      queue = "results";
      payload = job_message (record { job_id = "job"; url = "u"; bucket = none });
      attempts = 0;
    }
    ∷ []

abbrev results : InMemoryMessageQueue Payload
results = record {
  queues = record { entries = ("results", messages) ∷ [] };
  inflight = Dict.empty;
  dead = Dict.empty;
}

two_waiting : waiting results "results" ≡ messages
unfolding waiting Dict.get_or
two_waiting = refl

at_home : AreHome "results" (waiting results "results")
at_home = rw two_waiting (refl, (refl, tt))

enough : total_left 1 (waiting results "results") < 5
enough = rw two_waiting (omega arith)

no_article : (k : String) → Dict.get with_job.articles k ≡ none
unfolding Dict.get Dict.lookup
no_article k = refl

none_short : AreLong deps with_job
none_short = record { long = λ k a e. absurd (ground (arith, no_article k)) }

run_transform_worker-AreLong_example :
    (s : InMemoryMessageQueue Payload × (ℕ × Tables)) × (run_transform_worker deps memory_port 5
        "results" 1
        (λ n. times)
        fetch
        (results, (0, with_job))
      ≡ some (ok tt, s))
    × (waiting s.0 "results" ≡ [])
    × AreLong deps s.1.1
run_transform_worker-AreLong_example =
    run_transform_worker-AreLong deps (λ n. times) fetch "results" 5 1 results 0 with_job at_home
      enough none_short

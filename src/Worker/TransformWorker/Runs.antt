-- ===== src/Worker/TransformWorker/Runs.antt =====
-- The drain loop of the transform worker over the in-memory queue.
use scraper_v_hezzian.Exceptions.{ok}
use scraper_v_hezzian.Core.Queue.Ends.{AreHome, drain_induction}
use scraper_v_hezzian.Core.Queue.{consume_once, Message}
use scraper_v_hezzian.Worker.TransformWorker.Steps.{mark_running-article}
use scraper_v_hezzian.Worker.TransformWorker.Lifecycle.{
  handle_result_pointer-missing, handle_result_pointer-raises, handle_result_pointer-done,
  handle_result_pointer-error,
}
use scraper_v_hezzian.Worker.TransformWorker.Ways.{new_row}
use scraper_v_hezzian.Core.Storage.Upsert.{content-merged, merged}
use scraper_v_hezzian.Core.Queue.Memory.{
  reserve, dead_letters, InMemoryMessageQueue, waiting, memory_port,
}
use scraper_v_hezzian.Core.Queue.Drain.{Leaves, total_left, world-consume_once}
use scraper_v_hezzian.Core.Storage.{url_id}
use Prim.Native.String.{count}
use scraper_v_hezzian.Prelude.{
  string_eq, ◌≡◌, ◌≤◌, String, some, sym, ◌∙◌, true, Bool-cases, Option-cases, ◌==◌, ℕ, refl, ap,
  subst, ◌≢◌, inl, inr, arith, eq_iff, some_inj, ◌<◌, List, [], ◌∷◌,
}
use scraper_v_hezzian.Core.Db.{Job, ArticleRow}
use scraper_v_hezzian.Core.ObjectStore.{Fetched, found, object_not_found, get_error}
use scraper_v_hezzian.Utils.Validators.{response_is_valid}
use scraper_v_hezzian.Worker.Messages.{
  ingest_message, ResultPointer, Payload, job_message, result_pointer,
}
use scraper_v_hezzian.Worker.TransformWorker.{
  Deps, Times, handle_result_pointer, selectors_for, transform_handler, run_transform_worker,
}

module _ {B : Type 0} (W : Deps B) where
  -- No article has a content of fewer than 500 characters.
  pub record AreLong (db : W.database.Db) : Type 0 where
    pub long :
        (k : String) (a : ArticleRow) → W.database.article db k ≡ some a → 500 ≤ count a.content

  same-AreLong :
      (db db' : W.database.Db)
      → ((k : String) → W.database.article db' k ≡ W.database.article db k)
      → AreLong db
      → AreLong db'
  same-AreLong db db' same h = record { long = λ k a e. h.long k a (sym (same k) ∙ e) }

  module _ (at : Times) (fetch : String → Fetched B) (p : ResultPointer) (db : W.database.Db)
      (row : Job) (there : W.database.job db p.job_id ≡ some row) (h : AreLong db) where
    accepted-AreLong :
        (bytes : B)
        → p.status ≡ "success"
        → fetch p.object_key ≡ found bytes
        → response_is_valid W.html (W.decode bytes) (selectors_for W p.domain) 500 ≡ true
        → AreLong (handle_result_pointer W at fetch p db).1
    accepted-AreLong bytes good e valid =
        let (_, _, here, big, others) =
          handle_result_pointer-done W at fetch p db row there bytes good e valid in
        let id = url_id W.library p.url in
        let new = new_row W at.fetched p (W.decode bytes) in
        let old = W.database.article db id in
        record {
          long = λ k a ea. elim (Bool-cases (id == k)) [
            | inl same ↦
                let at_k : W.database.article (handle_result_pointer W at fetch p db).1 id
                    ≡ some a =
                  ap (W.database.article (handle_result_pointer W at fetch p db).1)
                    ((eq_iff id k).0 same)
                  ∙ ea in
                subst (λ c. 500 ≤ count c)
                  (sym (content-merged new old)
                    ∙ ap (λ (r : ArticleRow). r.content)
                        (some_inj (merged new old) a (sym here ∙ at_k)))
                  big
            | inr ne ↦
                let apart : id ≢ k = λ e'. absurd (ground (arith, eq_iff id k)) in
                h.long k a (sym (others k apart) ∙ ea)
          ];
        }

    fetched-AreLong :
        (f : Fetched B)
        → p.status ≡ "success"
        → fetch p.object_key ≡ f
        → AreLong (handle_result_pointer W at fetch p db).1
    fetched-AreLong (object_not_found why) good e =
        same-AreLong db _
          (handle_result_pointer-error W at fetch p db row there (inr (inl (why, e)))).2 h
    fetched-AreLong (get_error x) good e =
        same-AreLong db _
          (λ k.
            ap (λ x. W.database.article x.1 k)
              (handle_result_pointer-raises W at fetch p db row there x good e)
            ∙ mark_running-article W at.started p db k)
          h
    fetched-AreLong (found bytes) good e =
        elim (Bool-cases
          (response_is_valid W.html (W.decode bytes) (selectors_for W p.domain) 500)) [
            | inl valid ↦ accepted-AreLong bytes good e valid
            | inr invalid ↦
                same-AreLong db _
                  (handle_result_pointer-error W at fetch p db row there
                    (inr (inr (bytes, e, invalid)))).2
                  h
          ]

  -- Handling a pointer, however it ends, leaves no short article.
  handle_result_pointer-AreLong :
      (at : Times) (fetch : String → Fetched B) (p : ResultPointer) (db : W.database.Db)
      → AreLong db
      → AreLong (handle_result_pointer W at fetch p db).1
  handle_result_pointer-AreLong at fetch p db h = elim (Option-cases (W.database.job db p.job_id)) [
    | inl missing ↦
        same-AreLong db _
          (λ k.
            ap (λ x. W.database.article x.1 k)
              (handle_result_pointer-missing W at fetch p db missing))
          h
    | inr (row, there) ↦ elim (Bool-cases (p.status == "success")) [
      | inl good ↦
          fetched-AreLong at fetch p db row there h (fetch p.object_key)
            ((eq_iff p.status "success").0 good) refl
      | inr bad ↦
          let failed : p.status ≢ "success" =
            λ e. absurd (ground (arith, eq_iff p.status "success")) in
          same-AreLong db _ (handle_result_pointer-error W at fetch p db row there (inl failed)).2 h
    ]
  ]

  module _ (clock : ℕ → Times) (fetch : String → Fetched B) (queue : String) where
    abbrev World : Type 0
    World = InMemoryMessageQueue Payload × (ℕ × W.database.Db)

    handler_queue : (m : Payload) (s : World) → (transform_handler W clock fetch m s).1.0 ≡ s.0
    unfolding transform_handler
    handler_queue (result_pointer p) (q, (n, db)) = refl
    handler_queue (job_message m) (q, (n, db)) = refl
    handler_queue (ingest_message m) (q, (n, db)) = refl

    transform_handler-Leaves : Leaves queue (transform_handler W clock fetch)
    transform_handler-Leaves = record {
      waiting_eq = λ m s. ap (λ q. waiting q queue) (handler_queue m s);
      dead_eq = λ m s. ap (λ q. dead_letters q queue) (handler_queue m s);
    }

    transform_handler-AreLong :
        (m : Payload) (s : World)
        → AreLong s.1.1
        → AreLong (transform_handler W clock fetch m s).1.1.1
    unfolding transform_handler
    transform_handler-AreLong (result_pointer p) (q, (n, db)) h =
        handle_result_pointer-AreLong (clock n) fetch p db h
    transform_handler-AreLong (job_message m) (q, (n, db)) h = h
    transform_handler-AreLong (ingest_message m) (q, (n, db)) h = h

    consume_once-AreLong :
        (r : ℕ) (m : Message Payload) (ms : List (Message Payload))
        (q : InMemoryMessageQueue Payload) (w : ℕ × W.database.Db)
        → waiting q queue ≡ m ∷ ms
        → m.queue ≡ queue
        → AreLong w.1
        → AreLong (consume_once memory_port queue (transform_handler W clock fetch) r (q, w)).1.1.1
    consume_once-AreLong r m ms q w e here h =
        subst AreLong
          (sym (
            ap (λ x. x.1)
              (world-consume_once queue (transform_handler W clock fetch) r m ms q w e)))
          (transform_handler-AreLong m.payload ((reserve queue q).1, w) h)

    -- With fuel for every delivery that is left, a run of the transform worker over an in-memory
    -- queue whose messages name it ends without raising and with no message waiting; and if no
    -- article had a content of fewer than 500 characters before, none has one afterwards.
    pub run_transform_worker-AreLong :
        (fuel r : ℕ) (q : InMemoryMessageQueue Payload) (n : ℕ) (db : W.database.Db)
        → AreHome queue (waiting q queue)
        → total_left r (waiting q queue) < fuel
        → AreLong db
        → (s : World) × (run_transform_worker W memory_port fuel queue r clock fetch (q, (n, db))
            ≡ some (ok tt, s))
          × (waiting s.0 queue ≡ [])
          × AreLong s.1.1
    unfolding run_transform_worker
    run_transform_worker-AreLong fuel r q n db home enough h =
        drain_induction queue (transform_handler W clock fetch) transform_handler-Leaves r
          (λ s. AreLong s.1.1) (consume_once-AreLong r) fuel (q, (n, db)) (waiting q queue) refl
          home enough h

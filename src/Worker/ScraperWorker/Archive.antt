-- ===== src/Worker/ScraperWorker/Archive.antt =====
-- What a scrape job leaves in the store and on the results queue.
use scraper_v_hezzian.Prelude.Dict.{Dict}
use scraper_v_hezzian.Prelude.Dict
use scraper_v_hezzian.Prelude.{string_eq, ◌≡◌, ◌≢◌, String, arith, eq_iff, ap, ◌∙◌}
use scraper_v_hezzian.Exceptions.{pure, >>=-ok, >>=-err, Action, Exception, ok, err}
use scraper_v_hezzian.Core.Models.{ScrapeResult}
use scraper_v_hezzian.Core.Queue.{MessageQueue, on_queue}
use scraper_v_hezzian.Core.Storage.{Library}
use scraper_v_hezzian.Core.ObjectStore.{InMemoryObjectStore, found, put_object, get_object}
use scraper_v_hezzian.Worker.Messages.{JobMessage, Payload, result_pointer}
use scraper_v_hezzian.Worker.ScraperWorker.{
  on_engine, Encodings, raw_of, pointer_of, archive, handle_scrape_job,
}

get_object-put_object :
    {B : Type 0} (key : String) (b : B) (ct : String) (o : InMemoryObjectStore B)
    → get_object (put_object key b ct o).1 key ≡ found b
unfolding put_object get_object
get_object-put_object key b ct o = ground (arith, Dict.get-put_self o.objects key (b, ct))

get_object-put_object_ne :
    {B : Type 0} (key k : String) (b : B) (ct : String) (o : InMemoryObjectStore B)
    → key ≢ k
    → get_object (put_object key b ct o).1 k ≡ get_object o k
unfolding put_object get_object
get_object-put_object_ne key k b ct o ne =
    ground (arith, Dict.get-put o.objects key (b, ct) k, eq_iff key k)

module _ {B Q E : Type 0} (enc : Encodings B) (lib : Library) (port : MessageQueue Payload Q)
    (engine_scrape : String → Action E ScrapeResult) (results_queue : String) where
  archive-eq :
      (msg_id : String) (payload : JobMessage) (result : ScrapeResult) (q q' : Q)
      (o : InMemoryObjectStore B) (e : E) (id : String)
      → port.publish msg_id results_queue (result_pointer (pointer_of lib payload result)) q
        ≡ (ok id, q')
      → archive enc lib port engine_scrape results_queue msg_id payload result (q, (o, e)) ≡ (
        ok (pointer_of lib payload result),
        (
          q',
          (
            (put_object
                (pointer_of lib payload result).object_key
                (raw_of enc payload.url result).0
                (raw_of enc payload.url result).1
                o).1,
            e,
          ),
        ),
      )
  unfolding archive put_object
  archive-eq msg_id payload result q q' o e id h =
      let pointer = pointer_of lib payload result in
      let raw = raw_of enc payload.url result in
      let o' = (put_object pointer.object_key raw.0 raw.1 o).1 in
      >>=-ok (on_queue (port.publish msg_id results_queue (result_pointer pointer)))
        (λ _. pure pointer) (q, (o', e)) (q', (o', e)) (ap (λ x. (x.0, (x.1, (o', e)))) h)

  -- When the engine raises, the job's handler raises the same exception; it has stored and
  -- published nothing.
  pub handle_scrape_job-raises :
      (msg_id : String) (payload : JobMessage) (q : Q) (o : InMemoryObjectStore B) (e e' : E)
      (x : Exception)
      → engine_scrape payload.url e ≡ (err x, e')
      → handle_scrape_job enc lib port engine_scrape results_queue msg_id payload (q, (o, e))
        ≡ (err x, (q, (o, e')))
  unfolding handle_scrape_job
  handle_scrape_job-raises msg_id payload q o e e' x h =
      >>=-err (on_engine enc lib port engine_scrape results_queue (engine_scrape payload.url))
        (archive enc lib port engine_scrape results_queue msg_id payload) (q, (o, e)) (q, (o, e'))
        (ap (λ x. (x.0, (q, (o, x.1)))) h)

  archived :
      (msg_id : String) (payload : JobMessage) (q q' : Q) (o : InMemoryObjectStore B) (e e' : E)
      (result : ScrapeResult) (id : String)
      → engine_scrape payload.url e ≡ (ok result, e')
      → port.publish msg_id results_queue (result_pointer (pointer_of lib payload result)) q
        ≡ (ok id, q')
      → handle_scrape_job enc lib port engine_scrape results_queue msg_id payload (q, (o, e)) ≡ (
        ok (pointer_of lib payload result),
        (
          q',
          (
            (put_object
                (pointer_of lib payload result).object_key
                (raw_of enc payload.url result).0
                (raw_of enc payload.url result).1
                o).1,
            e',
          ),
        ),
      )
  unfolding handle_scrape_job
  archived msg_id payload q q' o e e' result id h published =
      >>=-ok (on_engine enc lib port engine_scrape results_queue (engine_scrape payload.url))
        (archive enc lib port engine_scrape results_queue msg_id payload) (q, (o, e)) (q, (o, e'))
        (ap (λ x. (x.0, (q, (o, x.1)))) h)
      ∙ archive-eq msg_id payload result q q' o e' id published

  -- When the engine returns a result, of any status, and the pointer can be published, the job
  -- returns that pointer. Its key then holds the payload of the result, and every other key what
  -- it held; the queue is the one after the publication of the pointer.
  pub handle_scrape_job-archives :
      (msg_id : String) (payload : JobMessage) (q q' : Q) (o : InMemoryObjectStore B) (e e' : E)
      (result : ScrapeResult) (id : String)
      → engine_scrape payload.url e ≡ (ok result, e')
      → let pointer = pointer_of lib payload result in
        port.publish msg_id results_queue (result_pointer pointer) q ≡ (ok id, q')
        → let (r, (q'', (o', e''))) =
            handle_scrape_job enc lib port engine_scrape results_queue msg_id payload (q, (o, e)) in
          (r ≡ ok pointer)
          × (get_object o' pointer.object_key ≡ found (raw_of enc payload.url result).0)
          × ((k : String) → pointer.object_key ≢ k → get_object o' k ≡ get_object o k)
          × (q'' ≡ q')
          × (e'' ≡ e')
  handle_scrape_job-archives msg_id payload q q' o e e' result id h published =
      let e1 = archived msg_id payload q q' o e e' result id h published in
      (
        ap (λ x. x.0) e1,
        ap (λ x. get_object x.1.1.0 (pointer_of lib payload result).object_key) e1
            ∙ get_object-put_object _ _ _ o,
        λ k ne. ap (λ x. get_object x.1.1.0 k) e1 ∙ get_object-put_object_ne _ k _ _ o ne,
        ap (λ x. x.1.0) e1,
        ap (λ x. x.1.1.1) e1,
      )

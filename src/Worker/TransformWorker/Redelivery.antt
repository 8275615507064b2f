-- ===== src/Worker/TransformWorker/Redelivery.antt =====
-- A pointer that is delivered more than once.
use scraper_v_hezzian.Worker.TransformWorker.Ways.{new_row}
use scraper_v_hezzian.Prelude.{
  string_eq, ◌≡◌, String, some, Bool-cases, ◌==◌, refl, sym, ap, ◌∙◌, subst, inl, inr, true, arith,
  eq_iff, ◌≢◌,
}
use scraper_v_hezzian.Core.Db.{Job}
use scraper_v_hezzian.Core.Storage.{url_id}
use scraper_v_hezzian.Core.Storage.Upsert.{row_of_again, merged}
use scraper_v_hezzian.Core.ObjectStore.{Fetched, found}
use scraper_v_hezzian.Utils.Validators.{response_is_valid}
use scraper_v_hezzian.Worker.Messages.{ResultPointer}
use scraper_v_hezzian.Worker.TransformWorker.{
  Deps, Times, article_of, handle_result_pointer, selectors_for,
}
use scraper_v_hezzian.Worker.TransformWorker.Steps.{as_running, as_done}
use scraper_v_hezzian.Worker.TransformWorker.Lifecycle.{handle_result_pointer-done}

module _ {B : Type 0} (W : Deps B) where
  -- When a pointer of a job of the table has the status `success`, and its payload is in the store
  -- and passes, and it is delivered twice: the articles are what they would be if only the second
  -- delivery had taken place, and the job is `done` again.
  pub handle_result_pointer-again :
      (at at' : Times) (fetch : String → Fetched B) (p : ResultPointer) (db : W.database.Db)
      (row : Job) (bytes : B)
      → W.database.job db p.job_id ≡ some row
      → p.status ≡ "success"
      → fetch p.object_key ≡ found bytes
      → response_is_valid W.html (W.decode bytes) (selectors_for W p.domain) 500 ≡ true
      → let once = (handle_result_pointer W at fetch p db).1 in
        let twice = (handle_result_pointer W at' fetch p once).1 in
        ((k : String)
          → W.database.article twice k
            ≡ W.database.article (handle_result_pointer W at' fetch p db).1 k)
        × (W.database.job twice p.job_id
            ≡ some (
                as_done W at'.finished
                  (as_running W at'.started (as_done W at.finished (as_running W at.started row)))))
  handle_result_pointer-again at at' fetch p db row bytes h ok_status there valid =
      let (_, job1, here1, _, others1) =
        handle_result_pointer-done W at fetch p db row h bytes ok_status there valid in
      let once = (handle_result_pointer W at fetch p db).1 in
      let (_, job2, here2, _, others2) =
        handle_result_pointer-done W at' fetch p once _ job1 bytes ok_status there valid in
      let (_, _, here', _, others') =
        handle_result_pointer-done W at' fetch p db row h bytes ok_status there valid in
      let id = url_id W.library p.url in
      let html = W.decode bytes in
      let a = article_of W p html in
      (
        λ k. elim (Bool-cases (id == k)) [
          | inl same ↦
              subst
                (λ j.
                  W.database.article (handle_result_pointer W at' fetch p once).1 j
                  ≡ W.database.article (handle_result_pointer W at' fetch p db).1 j)
                ((eq_iff id k).0 same)
                (here2
                  ∙ ap (λ o. some (merged (new_row W at'.fetched p html) o)) here1
                  ∙ ap some (
                      row_of_again W.database W.library at.fetched at'.fetched "transform"
                        "transform" a a (W.database.article db id) refl)
                  ∙ sym here')
          | inr ne ↦
              let ne' : id ≢ k = λ e. absurd (ground (arith, eq_iff id k)) in
              others2 k ne' ∙ others1 k ne' ∙ sym (others' k ne')
        ],
        job2,
      )

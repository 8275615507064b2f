-- ===== src/Core/Queue/Memory/Laws.antt =====
-- What each operation does to the waiting and to the dead messages of every queue.
use scraper_v_hezzian.Prelude.{
  string_eq, if◌then◌else◌, ◌==◌, String, ◌≡◌, refl, none, some, List, [], ◌∷◌, ◌++◌, arith, eq_iff,
}
use scraper_v_hezzian.Prelude.Dict
use scraper_v_hezzian.Prelude.Dict.{get-put, Dict}
use scraper_v_hezzian.Exceptions.{ok}
use scraper_v_hezzian.Core.Queue.{fresh_message, Message, delivered}
use scraper_v_hezzian.Core.Queue.Memory.{
  InMemoryMessageQueue, waiting, dead_letters, publish, reserve, ack, requeue, dead_letter,
}

module _ {P : Type 0} (q : InMemoryMessageQueue P) (j : String) where
  pub waiting-publish :
      (msg_id queue : String) (payload : P)
      → waiting (publish msg_id queue payload q).1 j ≡ (
          if queue == j
          then waiting q j ++ fresh_message msg_id queue payload ∷ []
          else waiting q j)
  unfolding publish waiting Dict.get_or
  waiting-publish msg_id queue payload = ground (
    arith,
    get-put q.queues queue (waiting q queue ++ fresh_message msg_id queue payload ∷ []) j,
    eq_iff queue j,
  )

  pub waiting-ack : (m : Message P) → waiting (ack m q).1 j ≡ waiting q j
  unfolding ack waiting
  waiting-ack m = refl

  pub waiting-dead_letter :
      (m : Message P) (e : String) → waiting (dead_letter m e q).1 j ≡ waiting q j
  unfolding dead_letter waiting
  waiting-dead_letter m e = refl

  pub waiting-requeue :
      (m : Message P)
      → waiting (requeue m q).1 j ≡ (if m.queue == j then waiting q j ++ m ∷ [] else waiting q j)
  unfolding requeue waiting Dict.get_or
  waiting-requeue m =
      ground (arith, get-put q.queues m.queue (waiting q m.queue ++ m ∷ []) j, eq_iff m.queue j)

  -- The in-memory operations never raise.
  pub settles_ok :
      (m : Message P) (error : String)
      → ((ack m q).0 ≡ ok tt) × ((requeue m q).0 ≡ ok tt) × ((dead_letter m error q).0 ≡ ok tt)
  unfolding ack requeue dead_letter
  settles_ok m error = (refl, refl, refl)

  pub dead_letters-ack : (m : Message P) → dead_letters (ack m q).1 j ≡ dead_letters q j
  unfolding ack dead_letters
  dead_letters-ack m = refl

  pub dead_letters-requeue : (m : Message P) → dead_letters (requeue m q).1 j ≡ dead_letters q j
  unfolding requeue dead_letters
  dead_letters-requeue m = refl

  pub dead_letters-dead_letter :
      (m : Message P) (e : String)
      → dead_letters (dead_letter m e q).1 j
        ≡ (if m.queue == j then dead_letters q j ++ m ∷ [] else dead_letters q j)
  unfolding dead_letter dead_letters Dict.get_or
  dead_letters-dead_letter m e =
      ground (arith, get-put q.dead m.queue (dead_letters q m.queue ++ m ∷ []) j, eq_iff m.queue j)

  pub reserve-cons :
      (queue : String) (m : Message P) (ms : List (Message P))
      → waiting q queue ≡ m ∷ ms
      → ((reserve queue q).0 ≡ ok (some (delivered m)))
        × (waiting (reserve queue q).1 j ≡ (if queue == j then ms else waiting q j))
        × (dead_letters (reserve queue q).1 j ≡ dead_letters q j)
  unfolding reserve dead_letters Dict.get_or
  reserve-cons queue m ms h = ground (arith, h, get-put q.queues queue ms j)

pub reserve-nil :
    {P : Type 0} (q : InMemoryMessageQueue P) (queue : String)
    → waiting q queue ≡ []
    → reserve queue q ≡ (ok none, q)
unfolding reserve
reserve-nil q queue h = rw h

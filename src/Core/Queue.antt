-- ===== src/Core/Queue.antt =====
-- scrapeforge/core/queue/base.py: the port that every backend implements, and `consume_once`,
-- which composes its operations. The workers' drain loop stands here too: it is the same in
-- worker/scraper_worker.py, worker/transform_worker.py and worker/community_ingest_worker.py.
pub mod Memory
pub mod Drain
pub mod Ends
pub mod Redis
mod Examples
use scraper_v_hezzian.Prelude.{
  ℕ, ltb, if◌then◌else◌, zero, suc, String, Bool, true, false, Option, none, some, ◌≡◌, arith, ◌+◌,
}
use scraper_v_hezzian.Exceptions.{◌>>◌, Result, Action, message, pure, ◌>>=◌, ok, err}

pub record Message (P : Type 0) : Type 0 where
  pub id : String
  pub queue : String
  pub payload : P
  pub attempts : ℕ

-- A message as it is published.
abbrev pub fresh_message : {P : Type 0} → String → String → P → Message P
fresh_message msg_id queue payload = record {
  id = msg_id;
  queue = queue;
  payload = payload;
  attempts = 0;
}

-- A message as it is delivered: one more attempt.
abbrev pub delivered : {P : Type 0} → Message P → Message P
delivered m = record m { attempts = m.attempts + 1 }

-- The abstract primitives. A backend has the state `Q`; `publish` takes the id that `uuid4` gives.
pub record MessageQueue (P Q : Type 0) : Type 0 where
  pub publish : String → String → P → Action Q String
  pub reserve : String → Action Q (Option (Message P))
  pub ack : Message P → Action Q Unit
  pub requeue : Message P → Action Q Unit
  pub dead_letter : Message P → String → Action Q Unit
  pub size : String → Action Q ℕ

-- An action on the queue, in a world that holds the queue and what else a handler changes.
abbrev pub on_queue : {Q W A : Type 0} → Action Q A → Action (Q × W) A
on_queue m (q, w) = let (r, q') = m q in (r, (q', w))

module _ {P Q W : Type 0} (port : MessageQueue P Q) where
  -- How a message ends, by what the handler did.
  unfoldable pub settle : ℕ → Message P → Result Unit → Action (Q × W) Unit
  settle max_retries m (ok _) = on_queue (port.ack m)
  settle max_retries m (err e) =
      if ltb max_retries m.attempts
      then on_queue (port.dead_letter m (message e))
      else on_queue (port.requeue m)

  unfoldable pub deliver : (P → Action (Q × W) Unit) → ℕ → Option (Message P) → Action (Q × W) Bool
  unfolding settle
  deliver handler max_retries none s = (ok false, s)
  deliver handler max_retries (some m) s =
      let (r, s') = handler m.payload s in (settle max_retries m r >> pure true) s'

  unfoldable pub consume_once : String → (P → Action (Q × W) Unit) → ℕ → Action (Q × W) Bool
  unfolding deliver
  consume_once queue handler max_retries = do
    m ← on_queue (port.reserve queue)
    deliver handler max_retries m

  pub consume_once-eq-deliver :
      (queue : String) (handler : P → Action (Q × W) Unit) (max_retries : ℕ) (q : Q) (w : W)
      {m : Option (Message P)}
      → (port.reserve queue q).0 ≡ ok m
      → consume_once queue handler max_retries (q, w)
        ≡ deliver handler max_retries m ((port.reserve queue q).1, w)
  unfolding consume_once
  consume_once-eq-deliver queue handler max_retries q w h = ground arith

  -- `while await queue.consume_once(…): pass`. `none` means that the fuel ran out.
  pub drain : ℕ → String → (P → Action (Q × W) Unit) → ℕ → Q × W → Option (Result Unit × (Q × W))
  drain zero queue handler max_retries s = none
  drain (suc fuel) queue handler max_retries s =
      let (r, s') = consume_once queue handler max_retries s in
      let rest = drain fuel queue handler max_retries s' in
      elim r [ ok more ↦ if more then rest else some (ok tt, s') | err e ↦ some (err e, s') ]

  pub drain-stop :
      (fuel : ℕ) (queue : String) (handler : P → Action (Q × W) Unit) (max_retries : ℕ) (s : Q × W)
      → (consume_once queue handler max_retries s).0 ≡ ok false
      → drain (suc fuel) queue handler max_retries s
        ≡ some (ok tt, (consume_once queue handler max_retries s).1)
  unfolding drain
  drain-stop fuel queue handler max_retries s h = ground arith

  pub drain-more :
      (fuel : ℕ) (queue : String) (handler : P → Action (Q × W) Unit) (max_retries : ℕ) (s : Q × W)
      → (consume_once queue handler max_retries s).0 ≡ ok true
      → drain (suc fuel) queue handler max_retries s
        ≡ drain fuel queue handler max_retries (consume_once queue handler max_retries s).1
  unfolding drain
  drain-more fuel queue handler max_retries s h = ground arith

pub on_queue-eq-ok :
    {Q W A : Type 0} (m : Action Q A) (q q' : Q) (w w' : W) (a : A)
    → on_queue m (q, w) ≡ (ok a, (q', w'))
    → (m q ≡ (ok a, q')) × (w' ≡ w)
on_queue-eq-ok m q q' w w' a h = (ground arith, ground arith)

-- ===== src/Core/Queue/Ends.antt =====
-- The drain loop ends with the queue empty, and accounts for every message that it took.
use scraper_v_hezzian.Core.Queue.Memory.Laws.{reserve-nil}
use scraper_v_hezzian.Prelude.{
  string_eq, ltb, Bool-cases, All, All-append, ℕ, zero, suc, ◌+◌, ◌<◌, String, ◌≡◌, refl, inl, inr,
  false, some, List, [], ◌∷◌, ap, ◌∙◌, none, length, filter, length-append, Bool, true, not, ◌++◌,
  arith,
}
use scraper_v_hezzian.Exceptions.{Action, Result, ok, err}
use scraper_v_hezzian.Core.Queue.{
  Message, consume_once, drain, deliver, consume_once-eq-deliver, drain-stop, drain-more, delivered,
}
use scraper_v_hezzian.Core.Queue.Memory.{
  InMemoryMessageQueue, memory_port, empty, waiting, dead_letters, reserve,
}
use scraper_v_hezzian.Core.Queue.Drain.{
  total_left, after, verdict, consume_once-cons, total_left-consume_once, buried, Leaves,
}

-- Every message waits on the queue that it names, as `publish` and `requeue` put it.
abbrev pub AreHome : {P : Type 0} → String → List (Message P) → Type 0
AreHome queue ms = All (λ m. m.queue ≡ queue) ms

after-AreHome :
    {P : Type 0} (queue : String) (r : ℕ) (v : Result Unit) (m : Message P) (ms : List (Message P))
    → AreHome queue (m ∷ ms)
    → AreHome queue (after r v m ms)
after-AreHome queue r (ok _) m ms h = h.1
after-AreHome queue r (err _) m ms h = elim (Bool-cases (ltb r (m.attempts + 1))) [
  | inl e ↦ rw e h.1
  | inr e ↦ rw e (All-append (λ m. m.queue ≡ queue) ms (delivered m ∷ []) h.1 (h.0, tt))
]

module _ {P W : Type 0} (queue : String) (handler : P → Action (InMemoryMessageQueue P × W) Unit)
    (leaves : Leaves queue handler) (r : ℕ) where
  -- One round of the loop keeps `I`.
  abbrev pub Keeps : (InMemoryMessageQueue P × W → Type 0) → Type 0
  Keeps I =
      (m : Message P) (ms : List (Message P)) (q : InMemoryMessageQueue P) (w : W)
      → waiting q queue ≡ m ∷ ms
      → m.queue ≡ queue
      → I (q, w)
      → I (consume_once memory_port queue handler r (q, w)).1

  consume_once-nil :
      (q : InMemoryMessageQueue P) (w : W)
      → waiting q queue ≡ []
      → consume_once memory_port queue handler r (q, w) ≡ (ok false, (q, w))
  unfolding deliver
  consume_once-nil q w h =
      let e = reserve-nil q queue h in
      consume_once-eq-deliver memory_port queue handler r q w (ap (λ x. x.0) e)
      ∙ ap (λ x. deliver memory_port handler r none (x.1, w)) e

  -- With fuel for every delivery that the waiting messages can take, the loop ends.
  pub drain_induction :
      (I : InMemoryMessageQueue P × W → Type 0)
      → Keeps I
      → (fuel : ℕ) (s : InMemoryMessageQueue P × W) (ms : List (Message P)) → waiting s.0 queue ≡ ms
      → AreHome queue ms
      → total_left r ms < fuel
      → I s
      → (s' : InMemoryMessageQueue P × W) × (drain memory_port fuel queue handler r s
          ≡ some (ok tt, s'))
        × (waiting s'.0 queue ≡ [])
        × I s'
  drain_induction I keeps zero s ms e home enough i = elim enough [ ]
  drain_induction I keeps (suc fuel) (q, w) [] e home enough i = (
    (q, w),
    drain-stop memory_port fuel queue handler r (q, w) (ap (λ x. x.0) (consume_once-nil q w e))
        ∙ ap (λ x. some (ok tt, x.1)) (consume_once-nil q w e),
    e,
    i,
  )
  drain_induction I keeps (suc fuel) (q, w) (m ∷ ms) e home enough i =
      let (more, left, _) = consume_once-cons queue handler leaves r m ms q w e home.0 in
      let fewer = total_left-consume_once queue handler leaves r m ms q w e home.0 in
      let s' = (consume_once memory_port queue handler r (q, w)).1 in
      let (end, eq, empty, i') =
        drain_induction I keeps fuel s' (waiting s'.0 queue) refl
          (rw left (after-AreHome queue r (verdict queue handler m (q, w)) m ms home))
          (omega (arith, fewer, ap (total_left r) e)) (keeps m ms q w e home.0 i) in
      (end, drain-more memory_port fuel queue handler r (q, w) more ∙ eq, empty, i')

-- The waiting messages whose payload the handler refuses.
abbrev pub refused : {P : Type 0} → (P → Bool) → List (Message P) → List (Message P)
refused accepts ms = filter (λ m. not (accepts m.payload)) ms

abbrev pub is_ok : Result Unit → Bool
is_ok (ok _) = true
is_ok (err _) = false

refused-append :
    {P : Type 0} (accepts : P → Bool) (xs ys : List (Message P))
    → length (refused accepts (xs ++ ys))
      ≡ length (refused accepts xs) + length (refused accepts ys)
refused-append accepts [] ys = omega arith
refused-append accepts (x ∷ xs) ys = ground (arith, refused-append accepts xs ys)

refused-after :
    {P : Type 0} (accepts : P → Bool) (r : ℕ) (v : Result Unit) (m : Message P)
    (ms : List (Message P))
    → is_ok v ≡ accepts m.payload
    → length (buried r v m) + length (refused accepts (after r v m ms))
      ≡ length (refused accepts (m ∷ ms))
refused-after accepts r (ok _) m ms h = ground arith
refused-after accepts r (err _) m ms h =
    ground (arith, refused-append accepts ms (delivered m ∷ []))

buried_tried :
    {P : Type 0} (r : ℕ) (v : Result Unit) (m : Message P)
    → All (λ d. r < d.attempts) (buried r v m)
buried_tried r (ok _) m = tt
buried_tried r (err _) m = ground arith

module _ {P W : Type 0} (queue : String) (handler : P → Action (InMemoryMessageQueue P × W) Unit)
    (leaves : Leaves queue handler) (r : ℕ) (accepts : P → Bool)
    (decides : (p : P) (s : InMemoryMessageQueue P × W) → is_ok (handler p s).0 ≡ accepts p) where
  record Accounted (total : ℕ) (s : InMemoryMessageQueue P × W) : Type 0 where
    counted : length (dead_letters s.0 queue) + length (refused accepts (waiting s.0 queue)) ≡ total
    tried : All (λ d. r < d.attempts) (dead_letters s.0 queue)

  consume_once-Accounted :
      (total : ℕ) (m : Message P) (ms : List (Message P)) (q : InMemoryMessageQueue P) (w : W)
      → waiting q queue ≡ m ∷ ms
      → m.queue ≡ queue
      → Accounted total (q, w)
      → Accounted total (consume_once memory_port queue handler r (q, w)).1
  consume_once-Accounted total m ms q w e here acc =
      let (_, left, dead) = consume_once-cons queue handler leaves r m ms q w e here in
      let v = verdict queue handler m (q, w) in
      record {
        counted =
            rw (left, dead)
              (omega (
                arith,
                length-append (dead_letters q queue) (buried r v m),
                refused-after accepts r v m ms (decides m.payload ((reserve queue q).1, w)),
                acc.counted,
                ap (λ l. length (refused accepts l)) e,
              ));
        tried = rw dead (
            All-append (λ d. r < d.attempts) (dead_letters q queue) (buried r v m) acc.tried
              (buried_tried r v m));
      }

  -- For a handler that leaves the messages and dead letters of its own queue alone, and that
  -- accepts or refuses a message by its payload alone: from a queue whose messages name it and that
  -- has no dead letters yet, the drain loop, with fuel for every delivery that is left, ends
  -- without raising and leaves no message waiting. As many messages are dead letters as waited with
  -- a payload that the handler refuses, and each was delivered more than `max_retries` times.
  pub drain_accounts :
      (fuel : ℕ) (q : InMemoryMessageQueue P) (w : W)
      → AreHome queue (waiting q queue)
      → dead_letters q queue ≡ []
      → total_left r (waiting q queue) < fuel
      → (s' : InMemoryMessageQueue P × W) × (drain memory_port fuel queue handler r (q, w)
          ≡ some (ok tt, s'))
        × (waiting s'.0 queue ≡ [])
        × (length (dead_letters s'.0 queue) ≡ length (refused accepts (waiting q queue)))
        × All (λ d. r < d.attempts) (dead_letters s'.0 queue)
  drain_accounts fuel q w home none_dead enough =
      let total = length (refused accepts (waiting q queue)) in
      let start : Accounted total (q, w) = record {
        counted = rw none_dead (omega arith);
        tried = rw none_dead tt;
      } in
      let (s', eq, empty, acc) =
        drain_induction queue handler leaves r (Accounted total) (consume_once-Accounted total) fuel
          (q, w) (waiting q queue) refl home enough start in
      (
        s',
        eq,
        empty,
        omega (arith, acc.counted, ap (λ l. length (refused accepts l)) empty),
        acc.tried,
      )

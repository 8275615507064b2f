-- ===== src/Core/Queue/Examples.antt =====
-- Two jobs on an in-memory queue, one of which the handler refuses.
use scraper_v_hezzian.Prelude.Dict.{Dict}
use scraper_v_hezzian.Prelude.Dict
use scraper_v_hezzian.Prelude.{
  string_eq, nat_eq, ℕ, ◌≡◌, ◌<◌, ◌==◌, Bool, some, [], ◌∷◌, refl, All, length, zero, suc, ◌+◌,
  arith,
}
use scraper_v_hezzian.Exceptions.{Action, ok, err, other_error}
use scraper_v_hezzian.Core.Queue.{Message, drain}
use scraper_v_hezzian.Core.Queue.Memory.{InMemoryMessageQueue, memory_port, waiting, dead_letters}
use scraper_v_hezzian.Core.Queue.Drain.{Leaves, total_left}
use scraper_v_hezzian.Core.Queue.Ends.{is_ok, AreHome, refused, drain_accounts}

abbrev job : ℕ → Message ℕ
job payload = record { id = "id"; queue = "jobs"; payload = payload; attempts = 0 }

abbrev two_jobs : InMemoryMessageQueue ℕ
two_jobs = record {
  queues = record { entries = ("jobs", job 0 ∷ job 1 ∷ []) ∷ [] };
  inflight = Dict.empty;
  dead = Dict.empty;
}

abbrev accepts : ℕ → Bool
accepts payload = payload == 0

-- The handler counts the jobs that it accepts.
abbrev handler : ℕ → Action (InMemoryMessageQueue ℕ × ℕ) Unit
handler zero (q, n) = (ok tt, (q, n + 1))
handler (suc payload) (q, n) = (err (other_error "refused"), (q, n))

leaves_waiting :
    (p : ℕ) (s : InMemoryMessageQueue ℕ × ℕ) → waiting (handler p s).1.0 "jobs" ≡ waiting s.0 "jobs"
leaves_waiting zero (q, n) = refl
leaves_waiting (suc p) (q, n) = refl

leaves_dead :
    (p : ℕ) (s : InMemoryMessageQueue ℕ × ℕ)
    → dead_letters (handler p s).1.0 "jobs" ≡ dead_letters s.0 "jobs"
leaves_dead zero (q, n) = refl
leaves_dead (suc p) (q, n) = refl

leaves : Leaves "jobs" handler
leaves = record { waiting_eq = leaves_waiting; dead_eq = leaves_dead }

decides : (p : ℕ) (s : InMemoryMessageQueue ℕ × ℕ) → is_ok (handler p s).0 ≡ accepts p
decides zero (q, n) = refl
decides (suc p) (q, n) = ground arith

two_waiting : waiting two_jobs "jobs" ≡ job 0 ∷ job 1 ∷ []
unfolding waiting Dict.get_or
two_waiting = refl

at_home : AreHome "jobs" (waiting two_jobs "jobs")
at_home = rw two_waiting (refl, (refl, tt))

none_dead : dead_letters two_jobs "jobs" ≡ []
unfolding dead_letters Dict.get_or
none_dead = refl

enough : total_left 2 (waiting two_jobs "jobs") < 7
enough = rw two_waiting (omega arith)

drain_accounts_example :
    (s' : InMemoryMessageQueue ℕ × ℕ) × (drain memory_port 7 "jobs" handler 2 (two_jobs, 0)
      ≡ some (ok tt, s'))
    × (waiting s'.0 "jobs" ≡ [])
    × (length (dead_letters s'.0 "jobs") ≡ length (refused accepts (waiting two_jobs "jobs")))
    × All (λ d. 2 < d.attempts) (dead_letters s'.0 "jobs")
drain_accounts_example =
    drain_accounts "jobs" handler leaves 2 accepts decides 7 two_jobs 0 at_home none_dead enough

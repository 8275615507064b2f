-- ===== src/Exceptions.antt =====
-- scrapeforge/exceptions.py, and methods that change state and may raise. What was written before
-- a raise stays written, so the state comes back beside the exception too.
use scraper_v_hezzian.Prelude.{String, ◌≡◌, refl, ◌⊎◌, inl, inr, arith, ap}

-- One constructor for each class of the hierarchy, with the message `str(exc)`; `QueueError` is
-- declared in core/queue/base.py. `other_error` is an exception of Python or of a third-party
-- library, which is no `ScrapeForgeError`.
pub data Exception : Type 0 where
  scrape_forge_error driver_error auth_error proxy_error challenge_error : String → Exception
  rate_limit_error fingerprint_error queue_error other_error : String → Exception

unfoldable pub message : Exception → String
message (scrape_forge_error s) = s
message (driver_error s) = s
message (auth_error s) = s
message (proxy_error s) = s
message (challenge_error s) = s
message (rate_limit_error s) = s
message (fingerprint_error s) = s
message (queue_error s) = s
message (other_error s) = s

pub data Result (A : Type 0) : Type 0 where
  ok : A → Result A
  err : Exception → Result A

abbrev pub Action : Type 0 → Type 0 → Type 0
Action S A = S → Result A × S

module _ {S A : Type 0} where
  abbrev pub pure : A → Action S A
  pure a s = (ok a, s)

  abbrev pub raise : Exception → Action S A
  raise e s = (err e, s)

infixl 5 ◌>>=◌ ◌>>◌
abbrev pub ◌>>=◌ : {S A B : Type 0} → Action S A → (A → Action S B) → Action S B
◌>>=◌ m f s = let (r, s') = m s in elim r [ ok a ↦ f a s' | err e ↦ (err e, s') ]

abbrev pub ◌>>◌ : {S A B : Type 0} → Action S A → Action S B → Action S B
m >> k = m >>= λ _. k

pub Result-cases :
    {A : Type 0} (r : Result A) → ((a : A) × (r ≡ ok a)) ⊎ ((e : Exception) × (r ≡ err e))
Result-cases (ok a) = inl (a, refl)
Result-cases (err e) = inr (e, refl)

-- What a chain that succeeds has done.
pub >>=-eq-ok :
    {S A B : Type 0} (m : Action S A) (f : A → Action S B) (s s' : S) {b : B}
    → (m >>= f) s ≡ (ok b, s')
    → (a : A) × ((m s).0 ≡ ok a) × (f a (m s).1 ≡ (ok b, s'))
>>=-eq-ok m f s s' h = elim (Result-cases (m s).0) [
  | inl (a, e) ↦ (a, e, ground arith)
  | inr (x, e) ↦ absurd (ground arith)
]

-- The first action returns, so the second one runs in the state it leaves.
pub >>-ok :
    {S A B : Type 0} (m : Action S A) (k : Action S B) (s : S) {a : A}
    → (m s).0 ≡ ok a
    → (m >> k) s ≡ k (m s).1
>>-ok m k s h = ground arith

pub >>-err :
    {S A B : Type 0} (m : Action S A) (k : Action S B) (s : S) (e : Exception)
    → (m s).0 ≡ err e
    → (m >> k) s ≡ (err e, (m s).1)
>>-err m k s e h = ground arith

pub >>=-ok :
    {S A B : Type 0} (m : Action S A) (f : A → Action S B) (s s' : S) {a : A}
    → m s ≡ (ok a, s')
    → (m >>= f) s ≡ f a s'
>>=-ok m f s s' h = ground (arith, h)

pub >>=-err :
    {S A B : Type 0} (m : Action S A) (f : A → Action S B) (s s' : S) {e : Exception}
    → m s ≡ (err e, s')
    → (m >>= f) s ≡ (err e, s')
>>=-err m f s s' h = ground (arith, h)

ok_or : {A : Type 0} → A → Result A → A
ok_or b (ok a) = a
ok_or b (err e) = b

pub ok_inj : {A : Type 0} (a b : A) → ok a ≡ ok b → a ≡ b
unfolding ok_or
ok_inj a b h = ap (ok_or a) h

-- ===== src/Core/Registry/Bindings.antt =====
-- What registration does to the bindings.
use scraper_v_hezzian.Prelude.Dict.{get-put_self, get-put, Dict}
use scraper_v_hezzian.Prelude.{
  nat_eq, string_eq, ℕ, All, String, ◌≡◌, ◌≢◌, some, List, [], ◌∷◌, arith, eq_iff, ◌⊎◌, inl, inr,
  nat_beq, Bool-cases, Option-cases,
}
use scraper_v_hezzian.Prelude.Dict
use scraper_v_hezzian.Exceptions.{Result, ok, err}
use scraper_v_hezzian.Core.Registry.{Registry, register_scraper}

-- A binding is never changed: whether registration succeeds or raises, a domain that was bound
-- is bound to the same class.
pub register_scraper-keeps :
    (domains : List String) (cls : ℕ) (reg : Registry) (domain : String) (c : ℕ)
    → Dict.get reg domain ≡ some c
    → Dict.get (register_scraper domains cls reg).1 domain ≡ some c
unfolding register_scraper
register_scraper-keeps [] cls reg domain c h = h
register_scraper-keeps (d ∷ ds) cls reg domain c h = ground (
  arith,
  get-put reg d cls domain,
  eq_iff d domain,
  register_scraper-keeps ds cls (Dict.put reg d cls) domain c,
)

-- One of the domains is bound to another class.
abbrev pub Clash : List String → ℕ → Registry → Type 0
Clash [] cls reg = ⊥
Clash (d ∷ ds) cls reg = ((c : ℕ) × (Dict.get reg d ≡ some c) × (c ≢ cls)) ⊎ Clash ds cls reg

abbrev pub Outcome : Result Unit → List String → ℕ → Registry → Registry → Type 0
Outcome (ok _) domains cls before after = All (λ d. Dict.get after d ≡ some cls) domains
Outcome (err _) domains cls before after = Clash domains cls before

Clash-put :
    (d : String) (ds : List String) (cls : ℕ) (reg : Registry)
    → Clash ds cls (Dict.put reg d cls)
    → Clash ds cls reg
Clash-put d [] cls reg h = elim h [ ]
Clash-put d (k ∷ ds) cls reg (inl (c, e, ne)) =
    inl (c, ground (arith, get-put reg d cls k, eq_iff d k), ne)
Clash-put d (k ∷ ds) cls reg (inr h) = inr (Clash-put d ds cls reg h)

Outcome-cons :
    (res : Result Unit) (d : String) (ds : List String) (cls : ℕ) (reg reg' : Registry)
    → Outcome res ds cls (Dict.put reg d cls) reg'
    → Dict.get reg' d ≡ some cls
    → Outcome res (d ∷ ds) cls reg reg'
Outcome-cons (ok _) d ds cls reg reg' h b = (b, h)
Outcome-cons (err _) d ds cls reg reg' h b = inr (Clash-put d ds cls reg h)

-- When registration succeeds, every one of its domains is bound to the class; when it raises,
-- one of them was bound to another class before the call.
pub register_scraper-Outcome :
    (domains : List String) (cls : ℕ) (reg : Registry)
    → let (res, reg') = register_scraper domains cls reg in Outcome res domains cls reg reg'
unfolding register_scraper
register_scraper-Outcome [] cls reg = tt
register_scraper-Outcome (d ∷ ds) cls reg =
    let (res, reg') = register_scraper ds cls (Dict.put reg d cls) in
    let bound = register_scraper-keeps ds cls (Dict.put reg d cls) d cls (get-put_self reg d cls) in
    let rest =
      Outcome-cons res d ds cls reg reg' (register_scraper-Outcome ds cls (Dict.put reg d cls))
        bound in
    elim (Option-cases (Dict.get reg d)) [
      | inl unbound ↦ rw (unbound, register_scraper) rest
      | inr (c, e) ↦ elim (Bool-cases (nat_beq c cls)) [
        | inl same ↦ rw (e, register_scraper) (rw same rest)
        | inr other ↦
            rw (e, register_scraper) (rw other (inl (c, e, λ (p : c ≡ cls). ground arith)))
      ]
    ]

-- ===== src/Core/ProxyRotator/Choice.antt =====
-- Which proxy `get_healthy_proxy` hands out.
use scraper_v_hezzian.Prelude.Dict
use scraper_v_hezzian.Prelude.Dict.{get-remove, Dict}
use scraper_v_hezzian.Prelude.{
  nat_eq, string_eq, ℕ, if◌then◌else◌, filter, All, String, ◌≡◌, refl, ap, ◌∙◌, ◌≢◌, Bool, not,
  ◌&&◌, Option, none, some, List, [], ◌∷◌, map, arith,
}
use scraper_v_hezzian.Core.ProxyRotator.{
  Proxy, is_burned, cooldown_expired, other_country, filter_candidates, ProxyRotator, passes,
  health_check, first_healthy, get_healthy_proxy,
}

-- No two proxies are one object.
abbrev pub AreDistinct : List Proxy → Type 0
AreDistinct [] = Unit
AreDistinct ((i, _) ∷ ps) = All (λ q. i ≢ q.0) ps × AreDistinct ps

-- What a proxy must meet to be a candidate, said of its state when the call begins.
abbrev pub eligible : Option String → Bool → ProxyRotator → ℕ → Proxy → Bool
eligible country exclude_burned rot now (i, p) =
    not (
      exclude_burned
      && is_burned p.health_status
      && not (cooldown_expired rot.burn_times rot.cooldown now i))
    && not (other_country country p)

abbrev pub identity : Proxy → ℕ
identity q = q.0

-- The first of a list that passes its health check.
abbrev pub first_passing : (ℕ → Option ℕ) → List ℕ → Option ℕ
first_passing probe [] = none
first_passing probe (i ∷ cs) =
    let rest = first_passing probe cs in if passes (probe i) then some i else rest

first_healthy-eq :
    (probe : ℕ → Option ℕ) (now : ℕ) (cs : List ℕ) (ps : List Proxy)
    → (first_healthy probe now cs ps).0 ≡ first_passing probe cs
unfolding first_healthy
first_healthy-eq probe now [] ps = refl
first_healthy-eq probe now (i ∷ cs) ps =
    ground (arith, first_healthy-eq probe now cs (health_check probe i ps).1)

module _ (country : Option String) (exclude_burned : Bool) (rot : ProxyRotator) (now : ℕ) where
  Agrees : Dict ℕ ℕ → Proxy → Type 0
  Agrees times q =
      cooldown_expired times rot.cooldown now q.0
      ≡ cooldown_expired rot.burn_times rot.cooldown now q.0

  expired-remove :
      (times : Dict ℕ ℕ) (i : ℕ) (q : Proxy)
      → i ≢ q.0
      → cooldown_expired (Dict.remove times i) rot.cooldown now q.0
        ≡ cooldown_expired times rot.cooldown now q.0
  unfolding cooldown_expired
  expired-remove times i q ne = ground (arith, get-remove times i q.0)

  agree-remove :
      (times : Dict ℕ ℕ) (i : ℕ) (ps : List Proxy)
      → All (λ q. i ≢ q.0) ps
      → All (Agrees times) ps
      → All (Agrees (Dict.remove times i)) ps
  unfolding Agrees
  agree-remove times i [] ne h = tt
  agree-remove times i (q ∷ ps) ne h =
      (expired-remove times i q ne.0 ∙ h.0, agree-remove times i ps ne.1 h.1)

  filter_candidates-eq :
      (ps : List Proxy) (times : Dict ℕ ℕ)
      → AreDistinct ps
      → All (Agrees times) ps
      → (filter_candidates country exclude_burned rot.cooldown now ps times).0
        ≡ map identity (filter (eligible country exclude_burned rot now) ps)
  unfolding filter_candidates Agrees
  filter_candidates-eq [] times distinct h = refl
  filter_candidates-eq ((i, p) ∷ ps) times distinct h =
      let kept = filter_candidates-eq ps times distinct.1 h.1 in
      let removed =
        filter_candidates-eq ps (Dict.remove times i) distinct.1
          (agree-remove times i ps distinct.0 h.1) in
      ground (arith, kept, removed, h.0)

  All-Agrees : (ps : List Proxy) → All (Agrees rot.burn_times) ps
  unfolding Agrees
  All-Agrees [] = tt
  All-Agrees (q ∷ ps) = (refl, All-Agrees ps)

  -- If no two proxies have the same identity, `get_healthy_proxy` hands out the first proxy, in
  -- list order, that is of the wanted country, is not burned within its cooldown (if burned ones
  -- are excluded), and passes its health check.
  pub get_healthy_proxy-eq :
      (probe : ℕ → Option ℕ)
      → AreDistinct rot.proxies
      → (get_healthy_proxy probe country exclude_burned now rot).0
        ≡ first_passing probe
            (map identity (filter (eligible country exclude_burned rot now) rot.proxies))
  unfolding get_healthy_proxy
  get_healthy_proxy-eq probe distinct =
      let (cs, ps, _) =
        filter_candidates country exclude_burned rot.cooldown now rot.proxies rot.burn_times in
      first_healthy-eq probe now cs ps
      ∙ ap (first_passing probe)
          (filter_candidates-eq rot.proxies rot.burn_times distinct (All-Agrees rot.proxies))

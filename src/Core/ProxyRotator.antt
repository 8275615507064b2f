-- ===== src/Core/ProxyRotator.antt =====
-- scrapeforge/core/proxy_rotator.py
-- A proxy object stands beside its identity, `id(proxy)`. The health check's HTTP request is a
-- parameter: `probe i` is the status code for the proxy `i`, or `none` where the request raises.
-- Times are numbers of clock ticks; a call reads the clock once here.
pub mod Choice
pub mod Burned
mod Examples
use text.Mathlib.Text.{starts_with}
use scraper_v_hezzian.Prelude.Dict
use scraper_v_hezzian.Prelude.{
  nat_eq, string_eq, ℕ, leb, if◌then◌else◌, ◌==◌, ◌+◌, String, Bool, true, false, not, ◌&&◌, ◌||◌,
  Option, none, some, List, [], ◌∷◌,
}
use scraper_v_hezzian.Core.Models.{ProxySession, HealthStatus, burned, unknown, healthy, unhealthy}
use scraper_v_hezzian.Prelude.Dict.{Dict}

abbrev pub Proxy : Type 0
Proxy = ℕ × ProxySession

pub record ProxyRotator : Type 0 where
  pub proxies : List Proxy
  pub burn_times : Dict ℕ ℕ
  pub cooldown : ℕ

abbrev pub is_burned : HealthStatus → Bool
is_burned burned = true
is_burned _ = false

-- A proxy as it is read from a line of the proxy list.
abbrev pub from_line : String → ProxySession
from_line line = record {
  url = line;
  health_status = unknown;
  last_used = none;
  failure_count = 0;
  assigned_scraper = none;
  country_code = none;
}

-- `_load_proxies`, on the stripped lines of the file; identities count up from `i`.
unfoldable pub load_proxies : ℕ → List String → List Proxy
load_proxies i [] = []
load_proxies i (line ∷ lines) = elim (line == "" || starts_with line "#") [
  | true ↦ load_proxies i lines
  | false ↦ (i, from_line line) ∷ load_proxies (i + 1) lines
]

-- `_burn_cooldown_expired`
unfoldable pub cooldown_expired : Dict ℕ ℕ → ℕ → ℕ → ℕ → Bool
cooldown_expired burn_times cooldown now i = elim (Dict.get burn_times i) [
  | none ↦ true
  | some burned_at ↦ leb (burned_at + cooldown) now
]

-- `country_code is not None and proxy.country_code != country_code`
unfoldable pub other_country : Option String → ProxySession → Bool
other_country none p = false
other_country (some c) p = elim p.country_code [ none ↦ true | some c' ↦ not (c' == c) ]

-- A proxy whose burn is over is back in rotation, whatever its country.
module _ (country : Option String) (exclude_burned : Bool) (cooldown now : ℕ) where
  -- `_filter_candidates`: the candidates, the proxies and the burn times afterwards.
  unfoldable pub filter_candidates : List Proxy → Dict ℕ ℕ → List ℕ × List Proxy × Dict ℕ ℕ
  filter_candidates [] burn_times = ([], [], burn_times)
  filter_candidates ((i, p) ∷ ps) burn_times =
      let held = exclude_burned && is_burned p.health_status in
      let expired = cooldown_expired burn_times cooldown now i in
      let p' = if held && expired then record p { health_status = unknown } else p in
      let times = if held && expired then Dict.remove burn_times i else burn_times in
      let (cs, ps', times') = filter_candidates ps times in
      (if held && not expired || other_country country p then cs else i ∷ cs, (i, p') ∷ ps', times')

-- The object with an identity, changed in place.
unfoldable pub update : ℕ → (ProxySession → ProxySession) → List Proxy → List Proxy
update i f [] = []
update i f ((j, p) ∷ ps) = (j, if j == i then f p else p) ∷ update i f ps

unfoldable pub passes : Option ℕ → Bool
passes none = false
passes (some code) = code == 200

unfoldable pub check : Bool → ProxySession → ProxySession
check true p = record p { health_status = healthy }
check false p = record p { health_status = unhealthy; failure_count = p.failure_count + 1 }

module _ (probe : ℕ → Option ℕ) where
  unfoldable pub health_check : ℕ → List Proxy → Bool × List Proxy
  unfolding passes check update
  health_check i ps = (passes (probe i), update i (check (passes (probe i))) ps)

  -- The loop of `get_healthy_proxy`.
  unfoldable pub first_healthy : ℕ → List ℕ → List Proxy → Option ℕ × List Proxy
  unfolding health_check
  first_healthy now [] ps = (none, ps)
  first_healthy now (i ∷ cs) ps =
      let (is_healthy, ps') = health_check i ps in
      let rest = first_healthy now cs ps' in
      if is_healthy then (some i, update i (λ p. record p { last_used = some now }) ps') else rest

  unfoldable pub get_healthy_proxy :
      Option String → Bool → ℕ → ProxyRotator → Option ℕ × ProxyRotator
  get_healthy_proxy country exclude_burned now rot =
      let (cs, ps, times) =
        filter_candidates country exclude_burned rot.cooldown now rot.proxies rot.burn_times in
      let (found, ps') = first_healthy now cs ps in
      (found, record rot { proxies = ps'; burn_times = times })

unfoldable pub mark_burned : ℕ → ℕ → ProxyRotator → ProxyRotator
mark_burned i now rot = record rot {
  proxies = update i (λ p. record p { health_status = burned }) rot.proxies;
  burn_times = Dict.put rot.burn_times i now;
}

unfoldable pub release : ℕ → ℕ → ProxyRotator → ProxyRotator
release i now rot = record rot {
  proxies = update i (λ p. record p { assigned_scraper = none; last_used = some now }) rot.proxies;
}

-- ===== src/Core/ProxyRotator/Examples.antt =====
-- Two proxies, one of them burned.
use scraper_v_hezzian.Prelude.{
  nat_eq, string_eq, ℕ, ◌≡◌, Option, some, none, true, [], ◌∷◌, map, filter, refl, arith,
}
use scraper_v_hezzian.Core.Models.{burned}
use scraper_v_hezzian.Core.ProxyRotator.{ProxyRotator, from_line, get_healthy_proxy}
use scraper_v_hezzian.Core.ProxyRotator.Choice.{
  get_healthy_proxy-eq, first_passing, eligible, identity,
}

-- Every proxy answers with status 200.
abbrev answers : ℕ → Option ℕ
answers i = some 200

abbrev pair : ProxyRotator
pair = record {
  proxies =
      (0, record (from_line "http://p0:80") { health_status = burned })
      ∷ (1, from_line "http://p1:80")
      ∷ [];
  burn_times = record { entries = (0, 10) ∷ [] };
  cooldown = 100;
}

second : (get_healthy_proxy answers none true 50 pair).0 ≡ some 1
unfolding get_healthy_proxy scraper_v_hezzian.Core.ProxyRotator.first_healthy
    scraper_v_hezzian.Core.ProxyRotator.filter_candidates
    scraper_v_hezzian.Core.ProxyRotator.cooldown_expired scraper_v_hezzian.Prelude.Dict.get
    scraper_v_hezzian.Core.ProxyRotator.other_country
second = refl

get_healthy_proxy-eq_example :
    (get_healthy_proxy answers none true 50 pair).0
    ≡ first_passing answers (map identity (filter (eligible none true pair 50) pair.proxies))
get_healthy_proxy-eq_example =
    get_healthy_proxy-eq none true pair 50 answers (((λ e. absurd (ground arith)), tt), (tt, tt))

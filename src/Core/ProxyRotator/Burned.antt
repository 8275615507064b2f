-- ===== src/Core/ProxyRotator/Burned.antt =====
-- A burned proxy is out of rotation until its cooldown is over.
use scraper_v_hezzian.Prelude.{nat_eq, string_eq}
use scraper_v_hezzian.Core.ProxyRotator.{ProxyRotator}

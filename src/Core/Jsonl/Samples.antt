-- ===== src/Core/Jsonl/Samples.antt =====
-- An article, its line in a table of known lines, and digests without white space.
use Prim.Native.Char.{code}
use Prim.Native.String.{[] as nil, ◌∷◌ as cons, ◌++◌ as ◌<>◌}
use text.Mathlib.TextEquality.{eq_iff}
use text.Mathlib.TextLemmas.{cons-ne-nil}
use scraper_v_hezzian.Prelude.Text.{is_space, any_code}
use scraper_v_hezzian.Prelude.{
  string_eq, String, false, none, some, if◌then◌else◌, ◌==◌, ◌≡◌, ◌≢◌, refl, arith,
}
use scraper_v_hezzian.Exceptions.{ok, err, other_error}
use scraper_v_hezzian.Core.Models.{no_metadata, Article, ScrapeResult, success}
use scraper_v_hezzian.Core.Storage.{Library}
use scraper_v_hezzian.Core.Jsonl.{Json}
use scraper_v_hezzian.Core.Jsonl.Resume.{Digests}

unfoldable pub digest : String → String
digest nil = "h"
digest (cons c s) = let rest = digest s in if is_space (code c) then rest else cons c rest

digest-any_code : (s : String) → any_code is_space (digest s) ≡ false
unfolding digest any_code
digest-any_code nil = unfold is_space in refl
digest-any_code (cons c s) = ground (arith, digest-any_code s)

digest-ne : (s : String) → digest s ≢ ""
unfolding digest
digest-ne nil e = ground (arith, eq_iff (digest "") "")
digest-ne (cons c s) e = ground (arith, digest-ne s, cons-ne-nil c (digest s))

abbrev pub library : Library
library = record { sha256 = digest; hostname = λ s. some "a.com" }

pub digests : Digests library
digests = record { sha256_visible = digest-any_code; sha256_ne = digest-ne }

abbrev pub article_of_text : String → String → Article
article_of_text url content = record {
  url = url;
  title = "t";
  content = content;
  author = none;
  publish_date = some 7;
  raw_html = some "<p>";
  metadata = record no_metadata { bucket = some "public" };
}

abbrev pub result_of_text : String → String → ScrapeResult
result_of_text url content = record {
  status = success;
  driver_used = "curl_cffi";
  error_text = none;
  proxy_used = none;
  article = some (article_of_text url content);
}

abbrev pub plain_json : Json
plain_json = record {
  dumps = λ r. "{" <> (r.content <> "}");
  loads = λ s.
      if s == "{text}"
      then ok (record {
        id = "uh";
        url = "u";
        title = "t";
        content = "text";
        author = none;
        publish_date = some "7";
        metadata = record no_metadata { bucket = some "public" };
      })
      else err (other_error "no JSON");
  isoformat = λ d. "7";
  fromisoformat = λ s. ok 7;
}

-- ===== src/Worker/Samples.antt =====
-- A job from its scrape to its article. The SHA-256 of a text is the text itself here; the parser
-- finds the whole page under any selector; and the payloads are texts.
use scraper_v_hezzian.Prelude.Dict.{Dict}
use scraper_v_hezzian.Prelude.Dict
use scraper_v_hezzian.Prelude.{string_eq, String, none, some, [], ◌∷◌}
use scraper_v_hezzian.Core.Db.Tables.{tables}
use scraper_v_hezzian.Core.Storage.{Library}
use scraper_v_hezzian.Core.ObjectStore.{Fetched, found}
use scraper_v_hezzian.Utils.Parsers.{Html, Selectors}
use scraper_v_hezzian.Worker.Messages.{ResultPointer}
use scraper_v_hezzian.Worker.ScraperWorker.{Encodings}
use scraper_v_hezzian.Worker.TransformWorker.{Deps, Times}

abbrev pub library : Library
library = record { sha256 = λ s. s; hostname = λ s. some "a.com" }

abbrev pub html_parser : Html
html_parser = record {
  Tree = String;
  parse = λ s. s;
  css_first = λ tree css. some tree;
  strip = λ s. s;
  lower = λ s. s;
}

abbrev pub selectors : Selectors
selectors = record {
  entries = ("title", some "h1") ∷ ("content", some "article") ∷ ("author", none) ∷ [];
}

abbrev pub deps : Deps String
deps = record {
  database = tables;
  library = library;
  html = html_parser;
  decode = λ s. s;
  registry = Dict.empty;
  selectors_of = λ cls. selectors;
  public_scraper = 0;
}

abbrev pub encodings : Encodings String
encodings = record { encode = λ s. s; dumps = λ status error_text url. url }

-- A page of 500 characters.
abbrev pub page : String
page =
    "01234567890123456789012345678901234567890123456789012345678901234567890123456789012345678901234567890123456789012345678901234567890123456789012345678901234567890123456789012345678901234567890123456789012345678901234567890123456789012345678901234567890123456789012345678901234567890123456789012345678901234567890123456789012345678901234567890123456789012345678901234567890123456789012345678901234567890123456789012345678901234567890123456789012345678901234567890123456789012345678901234567890123456789"

abbrev pub pointer : ResultPointer
pointer = record {
  job_id = "job";
  object_key = "raw/public/u";
  url = "u";
  url_id = "u";
  domain = "a.com";
  bucket = "public";
  status = "success";
}

abbrev pub times : Times
times = record { started = 1; fetched = 2; finished = 3 }

abbrev pub fetch : String → Fetched String
fetch key = found page

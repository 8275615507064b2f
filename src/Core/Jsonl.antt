-- ===== src/Core/Jsonl.antt =====
-- scrapeforge/core/storage/jsonl.py
-- The two files stand in the sink, `none` where there is none; their reads and writes do not fail.
-- JSON and the ISO dates are the parameter `Json`. What is read in text mode has its carriage
-- returns turned into line feeds, which the written files do not have.
pub mod Resume
pub mod Samples
mod Examples
use Prim.Native.String.{◌++◌ as ◌<>◌}
use scraper_v_hezzian.Prelude.Text.{splitlines, strip}
use scraper_v_hezzian.Prelude.{
  string_eq, ℕ, String, Bool, Option, none, some, List, [], ◌∷◌, if◌then◌else◌, ◌==◌, contains,
  or_empty,
}
use scraper_v_hezzian.Exceptions.{Action, Result, ok}
use scraper_v_hezzian.Core.Models.{Article, Metadata, ScrapeResult, article_if_success}
use scraper_v_hezzian.Core.Storage.{Library, url_id}

-- A line of the data file.
pub record JsonRow : Type 0 where
  pub id : String
  pub url : String
  pub title : String
  pub content : String
  pub author : Option String
  pub publish_date : Option String
  pub metadata : Metadata

pub record Json : Type 0 where
  pub dumps : JsonRow → String
  pub loads : String → Result JsonRow
  pub isoformat : ℕ → String
  pub fromisoformat : String → Result ℕ

pub record JsonlSink : Type 0 where
  pub data_file : Option String
  pub manifest_file : Option String
  pub seen_urls : List String
  pub seen_content : List String

-- Writing to a file that is opened with mode `"a"`.
unfoldable pub append_text : String → Option String → Option String
append_text s f = some (or_empty f <> s)

-- `{line.strip() for line in … if line.strip()}`
unfoldable pub stripped_lines : List String → List String
stripped_lines [] = []
stripped_lines (l ∷ ls) =
    let rest = stripped_lines ls in if strip l == "" then rest else strip l ∷ rest

unfoldable pub load_manifest : Option String → List String
unfolding stripped_lines
load_manifest none = []
load_manifest (some s) = stripped_lines (splitlines s)

-- `__init__`, on the files that are there.
unfoldable pub open_sink : Option String → Option String → JsonlSink
unfolding load_manifest
open_sink lines manifest = record {
  data_file = lines;
  manifest_file = manifest;
  seen_urls = load_manifest manifest;
  seen_content = [];
}

module _ (lib : Library) (json : Json) where
  unfoldable pub has_seen : JsonlSink → String → Bool
  unfolding url_id
  has_seen sink url = contains (url_id lib url) sink.seen_urls

  unfoldable pub json_row : Article → JsonRow
  unfolding url_id
  json_row a = record {
    id = url_id lib a.url;
    url = a.url;
    title = a.title;
    content = a.content;
    author = a.author;
    publish_date = elim a.publish_date [ none ↦ none | some d ↦ some (json.isoformat d) ];
    metadata = a.metadata;
  }

  -- The steps 1, 2 and 3 of `write`.
  unfoldable pub write_line : Article → JsonlSink → JsonlSink
  unfolding append_text json_row
  write_line a sink = record sink {
    data_file = append_text (json.dumps (json_row a) <> "\n") sink.data_file;
  }

  unfoldable pub write_manifest : Article → JsonlSink → JsonlSink
  unfolding append_text url_id
  write_manifest a sink = record sink {
    manifest_file = append_text (url_id lib a.url <> "\n") sink.manifest_file;
  }

  unfoldable pub remember : Article → JsonlSink → JsonlSink
  unfolding url_id
  remember a sink = record sink {
    seen_urls = url_id lib a.url ∷ sink.seen_urls;
    seen_content = lib.sha256 a.content ∷ sink.seen_content;
  }

  -- The article that `write` has to store, if any.
  unfoldable pub to_write : ScrapeResult → JsonlSink → Option Article
  to_write result sink = elim (article_if_success result) [
    | none ↦ none
    | some a ↦ if contains (lib.sha256 a.content) sink.seen_content then none else some a
  ]

  unfoldable pub store_article : Option Article → JsonlSink → JsonlSink
  unfolding write_line write_manifest remember
  store_article none sink = sink
  store_article (some a) sink = remember a (write_manifest a (write_line a sink))

  unfoldable pub write_json : ScrapeResult → Action JsonlSink Unit
  unfolding to_write store_article
  write_json result sink = (ok tt, store_article (to_write result sink) sink)

  -- The writes of a run, one after the other.
  unfoldable pub write_batch : List ScrapeResult → JsonlSink → JsonlSink
  write_batch [] sink = sink
  write_batch (r ∷ rs) sink = write_batch rs (write_json r sink).1

-- ===== src/Core/Jsonl/Resume.antt =====
-- A sink that is opened on the files of an earlier run.
use Prim.Native.String.{◌++◌ as ◌<>◌}
use text.Mathlib.TextEquality.{eq_iff}
use scraper_v_hezzian.Prelude.Text.{splitlines, any_code, is_space, is_whole}
use scraper_v_hezzian.Prelude.Text.Lines.{
  any_code-is_break, strip-eq_self, is_whole-line, splitlines-whole,
}
use scraper_v_hezzian.Prelude.{
  string_eq, String, true, false, Option, none, some, List, [], ◌∷◌, ◌++◌, contains, ◌≡◌, ◌≢◌, ◌||◌,
  or_empty, refl, ap, ◌∙◌, arith,
}
use scraper_v_hezzian.Core.Models.{Article, ScrapeResult}
use scraper_v_hezzian.Core.Storage.{Library, url_id}
use scraper_v_hezzian.Core.Jsonl.{
  Json, JsonlSink, append_text, stripped_lines, load_manifest, open_sink, has_seen, to_write,
  write_json, store_article, write_line, write_manifest, remember, write_batch,
}

-- SHA-256 in hexadecimal digits.
pub record Digests (lib : Library) : Type 0 where
  pub sha256_visible : (s : String) → any_code is_space (lib.sha256 s) ≡ false
  pub sha256_ne : (s : String) → lib.sha256 s ≢ ""

stripped_lines-append :
    (ls ks : List String) → stripped_lines (ls ++ ks) ≡ stripped_lines ls ++ stripped_lines ks
unfolding stripped_lines
stripped_lines-append [] ks = refl
stripped_lines-append (l ∷ ls) ks = ground (arith, stripped_lines-append ls ks)

stripped_lines-word :
    (w : String) → any_code is_space w ≡ false → w ≢ "" → stripped_lines (w ∷ []) ≡ w ∷ []
unfolding stripped_lines
stripped_lines-word w h ne = rw (strip-eq_self w h) (ground (arith, eq_iff w ""))

contains-append :
    (k : String) (xs ys : List String) → contains k (xs ++ ys) ≡ contains k xs || contains k ys
unfolding contains
contains-append k [] ys = refl
contains-append k (x ∷ xs) ys = ground (arith, contains-append k xs ys)

-- The manifest with one more id.
load_manifest-append :
    (w : String) (f : Option String)
    → any_code is_space w ≡ false
    → w ≢ ""
    → is_whole (or_empty f) ≡ true
    → load_manifest (append_text (w <> "\n") f) ≡ load_manifest f ++ (w ∷ [])
unfolding load_manifest append_text is_whole
load_manifest-append w none h ne whole =
    ap stripped_lines (splitlines-whole "" w refl (any_code-is_break w h))
    ∙ unfold splitlines in stripped_lines-word w h ne
load_manifest-append w (some s) h ne whole =
    ap stripped_lines (splitlines-whole s w whole (any_code-is_break w h))
    ∙ stripped_lines-append (splitlines s) (w ∷ [])
    ∙ ap (λ ls. stripped_lines (splitlines s) ++ ls) (stripped_lines-word w h ne)

is_whole-append_text :
    (l : String) (f : Option String) → is_whole (or_empty (append_text (l <> "\n") f)) ≡ true
unfolding append_text
is_whole-append_text l f = is_whole-line (or_empty f) l

-- The manifest is whole, and names the ids that the sink has seen.
pub record IsResumable (sink : JsonlSink) : Type 0 where
  pub manifest_whole : is_whole (or_empty sink.manifest_file) ≡ true
  pub manifest_seen :
      (k : String) → contains k (load_manifest sink.manifest_file) ≡ contains k sink.seen_urls

module _ (lib : Library) (json : Json) (D : Digests lib) where
  store_article-IsResumable :
      (o : Option Article) (sink : JsonlSink)
      → IsResumable sink
      → IsResumable (store_article lib json o sink)
  unfolding store_article remember write_manifest write_line url_id contains
  store_article-IsResumable none sink r = r
  store_article-IsResumable (some a) sink r = record {
    manifest_whole = is_whole-append_text (url_id lib a.url) sink.manifest_file;
    manifest_seen = λ k.
        ap (contains k) (
          load_manifest-append (url_id lib a.url) sink.manifest_file (D.sha256_visible a.url)
            (D.sha256_ne a.url) r.manifest_whole)
        ∙ contains-append k (load_manifest sink.manifest_file) (url_id lib a.url ∷ [])
        ∙ ground (arith, r.manifest_seen k);
  }

  pub write_json-IsResumable :
      (result : ScrapeResult) (sink : JsonlSink)
      → IsResumable sink
      → IsResumable (write_json lib json result sink).1
  unfolding write_json
  write_json-IsResumable result sink =
      store_article-IsResumable (to_write lib json result sink) sink

  write_batch-IsResumable :
      (rs : List ScrapeResult) (sink : JsonlSink)
      → IsResumable sink
      → IsResumable (write_batch lib json rs sink)
  unfolding write_batch
  write_batch-IsResumable [] sink r = r
  write_batch-IsResumable (x ∷ xs) sink r =
      write_batch-IsResumable xs (write_json lib json x sink).1 (write_json-IsResumable x sink r)

  -- If the SHA-256 digests are not empty and have no white space, and the manifest, if there is
  -- one, is empty or ends in a line feed, then after any writes a sink that is opened anew on the
  -- two files has seen exactly the URLs that the old one has seen.
  pub has_seen-open_sink :
      (lines manifest : Option String) (rs : List ScrapeResult) (url : String)
      → is_whole (or_empty manifest) ≡ true
      → (let sink = write_batch lib json rs (open_sink lines manifest) in
          has_seen lib json (open_sink sink.data_file sink.manifest_file) url
          ≡ has_seen lib json sink url)
  unfolding has_seen open_sink
  has_seen-open_sink lines manifest rs url w =
      (write_batch-IsResumable rs (open_sink lines manifest)
          (record { manifest_whole = w; manifest_seen = λ k. refl })).manifest_seen
        (url_id lib url)

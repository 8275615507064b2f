-- ===== src/Digest/Articles/Separators.antt =====
-- Line separators that JSON leaves as they are.
use Prim.Native.Char.{Char, code}
use Prim.Native.String.{◌∷◌ as cons, ◌++◌ as ◌<>◌}
use text.Mathlib.TextEquality.{eq_iff}
use text.Mathlib.TextLemmas.{append_assoc, cons-append}
use scraper_v_hezzian.Prelude.Text.{splitlines, strip, any_code, is_break, is_whole}
use scraper_v_hezzian.Prelude.Text.Lines.{splitlines-append, splitlines-break}
use scraper_v_hezzian.Prelude.{
  nat_beq, string_eq, String, true, false, some, List, ◌∷◌, ◌++◌, ◌≡◌, ◌≢◌, refl, sym, ap, ◌∙◌,
  arith,
}
use scraper_v_hezzian.Exceptions.{Exception, Result, ok, err}
use scraper_v_hezzian.Core.Models.{Article, ScrapeResult}
use scraper_v_hezzian.Core.Storage.{Library}
use scraper_v_hezzian.Core.Jsonl.{
  Json, JsonRow, JsonlSink, append_text, json_row, to_write, store_article, write_json, write_line,
  write_manifest, remember,
}
use scraper_v_hezzian.Digest.Articles.Mapped.{join, push, map_result-cons, map_result-append}
use scraper_v_hezzian.Digest.Articles.RoundTrip.{
  Holds, rows_of, made, articles_from_jsonl-eq, visible_lines-append,
}
use scraper_v_hezzian.Digest.Articles.{map_result, visible_lines, articles_from_jsonl}

torn_lines :
    (t x : String) (c : Char) (y : String)
    → is_whole t ≡ true
    → any_code is_break x ≡ false
    → is_break (code c) ≡ true
    → nat_beq (code c) 13 ≡ false
    → splitlines (t <> ((x <> cons c y) <> "\n")) ≡ splitlines t ++ (x ∷ splitlines (y <> "\n"))
torn_lines t x c y w bx bc r =
    splitlines-append t ((x <> cons c y) <> "\n") w
    ∙ ap (λ s. splitlines t ++ splitlines s)
        (append_assoc x (cons c y) "\n" ∙ ap (λ s. x <> s) (cons-append c y "\n"))
    ∙ ap (λ ls. splitlines t ++ ls) (splitlines-break x c (y <> "\n") bx bc r)

join-push-err :
    {B : Type 0} (r : Result (List B)) (x : Exception) (s : Result (List B)) (ys : List B)
    → r ≡ ok ys
    → join r (push (err x) s) ≡ err x
unfolding join push
join-push-err r x s ys e = rw e refl

module _ (lib : Library) (json : Json) where
  made-ok :
      (r : Result (List JsonRow)) (articles : List Article)
      → made lib json r ≡ ok articles
      → (rows : List JsonRow) × (r ≡ ok rows)
  unfolding made
  made-ok (err x) articles h = absurd (ground arith)
  made-ok (ok rows) articles h = (rows, refl)

  -- The rows of a file that gets a line whose first part is no JSON.
  torn_rows :
      (t x : String) (c : Char) (y : String) (e : Exception) (rows : List JsonRow)
      → is_whole t ≡ true
      → any_code is_break x ≡ false
      → is_break (code c) ≡ true
      → nat_beq (code c) 13 ≡ false
      → strip x ≢ ""
      → json.loads x ≡ err e
      → rows_of lib json t ≡ ok rows
      → rows_of lib json (t <> ((x <> cons c y) <> "\n")) ≡ err e
  unfolding rows_of
  torn_rows t x c y e rows w bx bc r ne l h =
      ap (λ ls. map_result json.loads (visible_lines ls)) (torn_lines t x c y w bx bc r)
      ∙ ap (map_result json.loads) (
          visible_lines-append (splitlines t) (x ∷ splitlines (y <> "\n"))
          ∙ ap (λ ls. visible_lines (splitlines t) ++ ls) first)
      ∙ map_result-append json.loads (visible_lines (splitlines t))
          (x ∷ visible_lines (splitlines (y <> "\n")))
      ∙ ap (join (map_result json.loads (visible_lines (splitlines t)))) (
          map_result-cons json.loads x (visible_lines (splitlines (y <> "\n")))
          ∙ ap (λ o. push o (map_result json.loads (visible_lines (splitlines (y <> "\n"))))) l)
      ∙ join-push-err (map_result json.loads (visible_lines (splitlines t))) e
          (map_result json.loads (visible_lines (splitlines (y <> "\n")))) rows h
    where
      first :
          visible_lines (x ∷ splitlines (y <> "\n")) ≡ x ∷ visible_lines (splitlines (y <> "\n"))
      first = unfold visible_lines in ground (arith, eq_iff (strip x) "")

  -- If the JSON of a written article has a line separator inside, other than a carriage return, and
  -- what stands before it is neither blank nor JSON, then reading the data file raises the
  -- decoder's error, though all earlier lines could be read.
  pub articles_from_jsonl-write_json_separator :
      (result : ScrapeResult) (sink : JsonlSink) (a : Article) (articles : List Article)
      (x : String) (c : Char) (y : String) (e : Exception)
      → to_write lib json result sink ≡ some a
      → Holds lib json sink.data_file articles
      → json.dumps (json_row lib json a) ≡ x <> cons c y
      → any_code is_break x ≡ false
      → is_break (code c) ≡ true
      → nat_beq (code c) 13 ≡ false
      → strip x ≢ ""
      → json.loads x ≡ err e
      → articles_from_jsonl json (write_json lib json result sink).1.data_file ≡ err e
  articles_from_jsonl-write_json_separator result sink a articles x c y e w h d bx bc r ne l =
      ap (articles_from_jsonl json) file
      ∙ articles_from_jsonl-eq lib json (h.file <> ((x <> cons c y) <> "\n"))
      ∙ ap (made lib json) (torn_rows h.file x c y e rows.0 h.file_whole bx bc r ne l rows.1)
      ∙ unfold made in refl
    where
      rows : (rows : List JsonRow) × (rows_of lib json h.file ≡ ok rows)
      rows =
          made-ok (rows_of lib json h.file) articles
            (sym (articles_from_jsonl-eq lib json h.file) ∙ h.file_read)

      file :
          (write_json lib json result sink).1.data_file ≡ some (h.file <> ((x <> cons c y) <> "\n"))
      file =
          unfold write_json store_article write_line write_manifest remember append_text in
          rw (w, h.file_there, d) refl

-- ===== src/Scrapers/Community/Substack/Ends.antt =====
-- A run over an archive that does not change while it is read.
use scraper_v_hezzian.Scrapers.Community.Substack.Wanted.{wanted-append, add_items-Adds, wanted}
use scraper_v_hezzian.Scrapers.Community.Substack.Pages.{
  pages-enough, pages-reads, after_items-short, after_items-next,
}
use scraper_v_hezzian.Scrapers.Community.Runs.{Run, Returned}
use scraper_v_hezzian.Prelude.Slices.{
  take-append_drop, take-eq_self, append_take-drop, take-append, take-nil,
}
use mathlib.Core.List.{append-nil}
use scraper_v_hezzian.Prelude.{
  string_eq, ℕ, zero, suc, ◌-◌, String, Bool, Option, some, List, [], ◌∷◌, ◌++◌, length, take, ◌≡◌,
  refl, arith, inl, inr, Bool-cases, sym, ap, ◌∙◌, ltb, drop, length-take, ◌+◌, ◌≤◌, ◌<◌, false,
  length-drop, min, ap₂,
}
use scraper_v_hezzian.Exceptions.{Action, ok}
use scraper_v_hezzian.Core.Models.{ScrapeResult}
use scraper_v_hezzian.Scrapers.Community.Substack.{
  ArchiveItem, SubstackPost, WebTools, archive_url, archive_pages, after_page, after_items,
  normalize_base, scrape_publication,
}

module _ (web : WebTools) (public_only : Bool) (base : String)
    (replies : String → Option SubstackPost) {W : Type 0}
    (fetch_post : String → Action W (Option SubstackPost))
    (served : (url : String) (w : W) → (fetch_post url w).0 ≡ ok (replies url)) (limit : ℕ)
    (fetch_archive : String → Action W (Option (List ArchiveItem))) (page_size : ℕ) (sort : String)
    (items : List ArchiveItem)
    (lists : (w : W) (k : ℕ)
      → k ≤ length items
      → (fetch_archive (archive_url base sort k page_size) w).0
        ≡ ok (some (take page_size (drop k items))))
    (positive : 0 < page_size) where
  -- The results when the first `k` items are read.
  abbrev so_far : ℕ → List ScrapeResult
  so_far k = take limit (wanted web public_only base replies (take k items))

  abbrev loop_from : ℕ → ℕ → List ScrapeResult → W → Run W
  loop_from fuel =
      archive_pages web fetch_post fetch_archive page_size public_only limit sort fuel base

  abbrev loop_at : ℕ → ℕ → W → Run W
  loop_at fuel k w =
      archive_pages web fetch_post fetch_archive page_size public_only limit sort fuel base k
        (so_far k) w

  abbrev pub Finds : Run W → Type 0
  Finds run = (w : W) × Returned run (take limit (wanted web public_only base replies items)) w

  take-so_far : (k : ℕ) → take limit (so_far k) ≡ so_far k
  take-so_far k =
      take-eq_self limit (so_far k)
        (ground (arith, length-take limit (wanted web public_only base replies (take k items))))

  -- The loop ends when it has enough results, or all of them.
  so_far-full :
      (k : ℕ)
      → ltb (length (so_far k)) limit ≡ false
      → so_far k ≡ take limit (wanted web public_only base replies items)
  so_far-full k h =
      sym (append-nil (so_far k))
      ∙ sym (
          take-append limit 0 (wanted web public_only base replies (take k items))
            (wanted web public_only base replies (drop k items)) (ground arith))
      ∙ ap (take limit)
          (sym (wanted-append web public_only base replies (take k items) (drop k items)))
      ∙ ap (λ is. take limit (wanted web public_only base replies is)) (append_take-drop k items)

  so_far-all :
      (k : ℕ) → length items ≤ k → so_far k ≡ take limit (wanted web public_only base replies items)
  so_far-all k h =
      ap (λ is. take limit (wanted web public_only base replies is)) (take-eq_self k items h)

  -- A page adds what is wanted of it.
  so_far-page :
      (k n room : ℕ)
      → limit - length (so_far k) ≡ room
      → so_far k ++ take room (wanted web public_only base replies (take n (drop k items)))
        ≡ so_far (k + n)
  so_far-page k n room e =
      sym (
        take-append limit room (wanted web public_only base replies (take k items))
          (wanted web public_only base replies (take n (drop k items))) e)
      ∙ ap (take limit)
          (sym (wanted-append web public_only base replies (take k items) (take n (drop k items))))
      ∙ ap (λ is. take limit (wanted web public_only base replies is))
          (take-append_drop k n (k + n) items refl)

  -- The rest of the loop once a page is read.
  read_page :
      (fuel k : ℕ) (w : W) (page : List ArchiveItem)
      → k ≤ length items
      → page ≡ take page_size (drop k items)
      → (k + page_size ≤ length items → (w : W) → Finds (loop_at fuel (k + page_size) w))
      → Finds (
          after_page web fetch_post fetch_archive page_size public_only limit sort
            (archive_pages web fetch_post fetch_archive page_size public_only limit sort fuel base)
            base
            k
            (so_far k)
            (ok (some page))
            w)
  read_page fuel k w [] a e next = (
    w,
    unfold after_page in
        ap (λ rs. some (ok rs, w))
          (take-so_far k
            ∙ so_far-all k (
                ground
                  (arith, ap length e, length-take page_size (drop k items), length-drop k items))),
  )
  read_page fuel k w (i ∷ page) a e next =
      let room = limit - length (so_far k) in
      let (w', h) =
        add_items-Adds web public_only base replies fetch_post served limit (i ∷ page) (so_far k)
          room w refl in
      let results = so_far k ++ take room (wanted web public_only base replies (i ∷ page)) in
      let grown : results ≡ so_far (k + page_size) =
        ap (λ p. so_far k ++ take room (wanted web public_only base replies p)) e
        ∙ so_far-page k page_size room refl in
      let n = length (i ∷ page) in
      let size : n ≡ min page_size (length items - k) =
        ap length e
        ∙ length-take page_size (drop k items)
        ∙ ap (min page_size) (length-drop k items) in
      let added : after_page web fetch_post fetch_archive page_size public_only limit sort
            (loop_from fuel) base k (so_far k) (ok (some (i ∷ page))) w
          ≡ after_items web fetch_post fetch_archive page_size public_only limit sort
              (loop_from fuel) k n (ok results) w' =
        unfold after_page in
        ap
          (λ p.
            after_items web fetch_post fetch_archive page_size public_only limit sort
              (loop_from fuel) k n p.0 p.1)
          h in
      elim (Bool-cases (ltb n page_size)) [
        | inl b ↦ (
          w',
          added
              ∙ after_items-short web fetch_post fetch_archive page_size public_only limit sort
                  (loop_from fuel) k n results w' b
              ∙ ap (λ rs. some (ok (take limit rs), w')) grown
              ∙ ap (λ rs. some (ok rs, w'))
                  (take-so_far (k + page_size) ∙ so_far-all (k + page_size) (ground arith)),
        )
        | inr b ↦
            let full : k + n ≡ k + page_size = ground arith in
            let (w2, found) = next (ground arith) w' in
            (
              w2,
              added
                  ∙ after_items-next web fetch_post fetch_archive page_size public_only limit sort
                      (loop_from fuel) k n results w' b
                  ∙ ap₂ (λ o rs. loop_from fuel o rs w') full grown
                  ∙ found,
            )
      ]

  pub pages-Finds :
      (fuel k : ℕ) (w : W) → k ≤ length items → length items - k < fuel → Finds (loop_at fuel k w)
  pages-Finds zero k w a f = absurd (omega arith)
  pages-Finds (suc fuel) k w a f = elim (Bool-cases (ltb (length (so_far k)) limit)) [
    | inr b ↦ (
      w,
      pages-enough web fetch_post fetch_archive page_size public_only limit sort fuel base k
            (so_far k) w b
          ∙ ap (λ rs. some (ok rs, w)) (take-so_far k ∙ so_far-full k b),
    )
    | inl b ↦
        let w1 = (fetch_archive (archive_url base sort k page_size) w).1 in
        let (w2, found) =
          read_page fuel k w1 (take page_size (drop k items)) a refl
            (λ fits w. pages-Finds fuel (k + page_size) w fits (omega arith)) in
        (
          w2,
          pages-reads web fetch_post fetch_archive page_size public_only limit sort fuel base k
                (so_far k) w b
              ∙ ap
                  (λ p.
                    after_page web fetch_post fetch_archive page_size public_only limit sort
                      (loop_from fuel) base k (so_far k) p w1)
                  (lists w k a)
              ∙ found,
        )
  ]

-- The archive's paging: `limit` entries from the offset on.
abbrev pub Lists :
    {W : Type 0}
    → (String → Action W (Option (List ArchiveItem)))
    → String
    → String
    → ℕ
    → List ArchiveItem
    → Type 0
Lists {W} fetch_archive base sort page_size items =
    (w : W) (k : ℕ)
    → k ≤ length items
    → (fetch_archive (archive_url base sort k page_size) w).0
      ≡ ok (some (take page_size (drop k items)))

-- Against an archive and posts that do not change, with a page size that is not zero and more fuel
-- than entries, a run of `scrape_publication` ends, and returns the first `limit` of the results
-- that the entries give, in order: those that are not skipped for their audience, and whose posts
-- are fetched and not behind the paywall.
pub scrape_publication-Finds :
    (web : WebTools) {W : Type 0} (fetch_post : String → Action W (Option SubstackPost))
    (fetch_archive : String → Action W (Option (List ArchiveItem))) (page_size : ℕ)
    (public_only : Bool) (limit : ℕ) (sort : String) (replies : String → Option SubstackPost)
    (items : List ArchiveItem) (fuel : ℕ) (publication : String) (w : W)
    → ((url : String) (w : W) → (fetch_post url w).0 ≡ ok (replies url))
    → Lists fetch_archive (normalize_base web publication) sort page_size items
    → 0 < page_size
    → length items < fuel
    → (w' : W) × Returned
        (scrape_publication web fetch_post fetch_archive page_size public_only limit sort fuel
          publication w)
        (take limit (wanted web public_only (normalize_base web publication) replies items))
        w'
unfolding scrape_publication
scrape_publication-Finds web fetch_post fetch_archive page_size public_only limit sort replies items
      fuel publication w served lists p f =
    let base = normalize_base web publication in
    let (w', found) =
      pages-Finds web public_only base replies fetch_post served limit fetch_archive page_size sort
        items lists p fuel 0 w (omega arith) (omega arith) in
    (
      w',
      ap
            (λ rs.
              archive_pages web fetch_post fetch_archive page_size public_only limit sort fuel base
                0 rs w)
            start
          ∙ found,
    )
  where
    start : [] ≡ take limit (wanted web public_only (normalize_base web publication) replies [])
    start = unfold wanted in sym (take-nil limit)

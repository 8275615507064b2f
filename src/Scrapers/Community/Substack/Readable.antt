-- ===== src/Scrapers/Community/Substack/Readable.antt =====
-- The scraper gives no post behind the paywall, and none that is short.
use scraper_v_hezzian.Exceptions.{Action, ◌>>=◌, ok, >>=-eq-ok, ok_inj, pure}
use Prim.Native.String.{count}
use text.Mathlib.TextEquality.{eq_iff}
use scraper_v_hezzian.Prelude.{
  string_eq, ◌≤◌, String, false, Option, none, some, or_empty, List, All, ◌≡◌, ◌≢◌, refl, arith,
  inl, inr, ◌⊎◌, Bool-cases, All-append, ltb, length, ℕ, Bool, true, [], ◌∷◌, sym, ap, ◌∙◌, subst,
}
use scraper_v_hezzian.Core.Models.{Article, ScrapeResult, error, failed}
use scraper_v_hezzian.Scrapers.Community.Substack.{
  SubstackPost, WebTools, min_content_length, substack_success, is_paywalled, content_of_body,
  build_article, post_outcome, keep_post, is_skipped, post_url, scrape_post, add_items, ArchiveItem,
  slug_of, normalize_base,
}

-- A success whose article has the least length, and is not for paying readers only.
abbrev pub IsReadable : ScrapeResult → Type 0
IsReadable r =
    (a : Article) × (r ≡ substack_success a)
    × (min_content_length ≤ count a.content)
    × (or_empty a.metadata.audience ≢ "only_paid")

module _ (web : WebTools) where
  build_article-IsReadable :
      (post : SubstackPost)
      → is_paywalled web post ≡ false
      → IsReadable (substack_success (build_article web post))
  unfolding is_paywalled build_article content_of_body
  build_article-IsReadable post h = (
    build_article web post,
    refl,
    ground arith,
    λ e. ground (arith, eq_iff (or_empty post.post_audience) "only_paid"),
  )

  post_outcome-IsReadable :
      (o : Option SubstackPost)
      → IsReadable (post_outcome web o)
        ⊎ ((reason : String) × (post_outcome web o ≡ failed error "curl_cffi" reason))
  unfolding post_outcome
  post_outcome-IsReadable none = inr (_, refl)
  post_outcome-IsReadable (some post) = elim (Bool-cases (is_paywalled web post)) [
    | inl e ↦ inr ("paywalled", rw e refl)
    | inr e ↦ inl (rw e (build_article-IsReadable post e))
  ]

  keep_post-All :
      (results : List ScrapeResult) (o : Option SubstackPost)
      → All IsReadable results
      → All IsReadable (keep_post web results o)
  unfolding keep_post
  keep_post-All results none h = h
  keep_post-All results (some post) h = elim (Bool-cases (is_paywalled web post)) [
    | inl e ↦ rw e h
    | inr e ↦ rw e (All-append IsReadable results _ h (build_article-IsReadable post e, tt))
  ]

  module _ {W : Type 0} (fetch_post : String → Action W (Option SubstackPost)) where
    -- When `scrape` returns, its result is a success whose article has a content of 500 characters
    -- or more and is not for paying readers only, or an error without an article.
    pub scrape_post-IsReadable :
        (url : String) (w w' : W) (r : ScrapeResult)
        → scrape_post web fetch_post url w ≡ (ok r, w')
        → IsReadable r ⊎ ((reason : String) × (r ≡ failed error "curl_cffi" reason))
    unfolding scrape_post
    scrape_post-IsReadable url w w' r h =
        let (post, e, h1) =
          >>=-eq-ok (fetch_post (post_url (normalize_base web url) (slug_of (web.path url))))
            (λ post. pure (post_outcome web post)) w w' h in
        subst (λ r. IsReadable r ⊎ ((reason : String) × (r ≡ failed error "curl_cffi" reason)))
          (ok_inj (post_outcome web post) r (ap (λ p. p.0) h1)) (post_outcome-IsReadable post)

    module _ (public_only : Bool) (limit : ℕ) (base : String) where
      pub add_items-full :
          (items : List ArchiveItem) (results : List ScrapeResult) (w : W)
          → ltb (length results) limit ≡ false
          → add_items web fetch_post public_only limit base items results w ≡ (ok results, w)
      unfolding add_items
      add_items-full [] results w h = refl
      add_items-full (item ∷ items) results w h = ground arith

      pub add_items-skips :
          (item : ArchiveItem) (items : List ArchiveItem) (results : List ScrapeResult) (w : W)
          → ltb (length results) limit ≡ true
          → is_skipped public_only item ≡ true
          → add_items web fetch_post public_only limit base (item ∷ items) results w
            ≡ add_items web fetch_post public_only limit base items results w
      unfolding add_items
      add_items-skips item items results w h k = ground arith

      pub add_items-fetches :
          (item : ArchiveItem) (items : List ArchiveItem) (results : List ScrapeResult) (w : W)
          → ltb (length results) limit ≡ true
          → is_skipped public_only item ≡ false
          → add_items web fetch_post public_only limit base (item ∷ items) results w
            ≡ (fetch_post (post_url base item.slug) >>= λ post.
                  add_items web fetch_post public_only limit base items
                    (keep_post web results post))
                w
      unfolding add_items
      add_items-fetches item items results w h k = ground arith

      pub add_items-All :
          (items : List ArchiveItem) (results rs : List ScrapeResult) (w w' : W)
          → All IsReadable results
          → add_items web fetch_post public_only limit base items results w ≡ (ok rs, w')
          → All IsReadable rs
      add_items-All [] results rs w w' h e =
          unfold add_items in subst (All IsReadable) (ok_inj results rs (ap (λ p. p.0) e)) h
      add_items-All (item ∷ items) results rs w w' h e =
          elim (Bool-cases (ltb (length results) limit)) [
            | inr b ↦
                subst (All IsReadable)
                  (ok_inj results rs
                    (ap (λ p. p.0) (sym (add_items-full (item ∷ items) results w b) ∙ e)))
                  h
            | inl b ↦ elim (Bool-cases (is_skipped public_only item)) [
              | inl k ↦
                  add_items-All items results rs w w' h
                    (sym (add_items-skips item items results w b k) ∙ e)
              | inr k ↦
                  let (post, f, e1) =
                    >>=-eq-ok (fetch_post (post_url base item.slug))
                      (λ post.
                        add_items web fetch_post public_only limit base items
                          (keep_post web results post))
                      w w' (sym (add_items-fetches item items results w b k) ∙ e) in
                  add_items-All items (keep_post web results post) rs
                    (fetch_post (post_url base item.slug) w).1 w' (keep_post-All results post h) e1
            ]
          ]

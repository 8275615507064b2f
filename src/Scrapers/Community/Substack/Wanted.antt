-- ===== src/Scrapers/Community/Substack/Wanted.antt =====
-- What the loop over a page of the archive adds, when the posts do not change while they are read.
use mathlib.Core.List.{append-nil, append_assoc}
use scraper_v_hezzian.Prelude.{
  string_eq, ℕ, zero, suc, ◌-◌, String, Bool, Option, none, some, List, [], ◌∷◌, ◌++◌, length, take,
  ◌≡◌, refl, arith, inl, inr, Bool-cases, sym, ap, ◌∙◌, if◌then◌else◌, length-append,
}
use scraper_v_hezzian.Exceptions.{Action, ok, >>=-ok}
use scraper_v_hezzian.Core.Models.{ScrapeResult}
use scraper_v_hezzian.Scrapers.Community.Substack.{
  ArchiveItem, SubstackPost, WebTools, keep_post, is_paywalled, is_skipped, add_items, post_url,
  substack_success, build_article,
}
use scraper_v_hezzian.Scrapers.Community.Substack.Readable.{
  add_items-full, add_items-skips, add_items-fetches,
}

-- A fetched post is kept, or it is not.
data Keeps (web : WebTools) (o : Option SubstackPost) : List ScrapeResult → Type 0 where
  dropped : ((results : List ScrapeResult) → keep_post web results o ≡ results) → Keeps web o []
  kept :
      (r : ScrapeResult)
      → ((results : List ScrapeResult) → keep_post web results o ≡ results ++ (r ∷ []))
      → Keeps web o (r ∷ [])

keep_post-Keeps : (web : WebTools) (o : Option SubstackPost) → Keeps web o (keep_post web [] o)
unfolding keep_post
keep_post-Keeps web none = dropped (λ results. refl)
keep_post-Keeps web (some post) = elim (Bool-cases (is_paywalled web post)) [
  | inl e ↦ rw e (dropped (λ results. rw e refl))
  | inr e ↦ rw e (kept (substack_success (build_article web post)) (λ results. rw e refl))
]

module _ (web : WebTools) (public_only : Bool) (base : String)
    (replies : String → Option SubstackPost) where
  -- The results of the items that are not skipped, and whose posts are kept.
  unfoldable pub wanted : List ArchiveItem → List ScrapeResult
  wanted [] = []
  wanted (i ∷ items) =
      let rest = wanted items in
      if is_skipped public_only i
      then rest
      else keep_post web [] (replies (post_url base i.slug)) ++ rest

  pub wanted-append : (xs ys : List ArchiveItem) → wanted (xs ++ ys) ≡ wanted xs ++ wanted ys
  unfolding wanted
  wanted-append [] ys = refl
  wanted-append (i ∷ xs) ys = elim (Bool-cases (is_skipped public_only i)) [
    | inl e ↦ rw e (wanted-append xs ys)
    | inr e ↦ rw e (
        ap (λ zs. keep_post web [] (replies (post_url base i.slug)) ++ zs) (wanted-append xs ys)
        ∙ sym (
            append_assoc (keep_post web [] (replies (post_url base i.slug))) (wanted xs)
              (wanted ys)))
  ]

  module _ {W : Type 0} (fetch_post : String → Action W (Option SubstackPost))
      (served : (url : String) (w : W) → (fetch_post url w).0 ≡ ok (replies url)) (limit : ℕ) where
    -- The loop over a page, with room for some more results.
    abbrev pub Adds : List ArchiveItem → List ScrapeResult → W → List ScrapeResult → Type 0
    Adds items results w rs =
        (w' : W) × (add_items web fetch_post public_only limit base items results w ≡ (ok rs, w'))

    -- The rest of the loop, when a post is fetched and the rest does what is claimed.
    fetched :
        (items : List ArchiveItem) (results ks : List ScrapeResult) (room : ℕ)
        (o : Option SubstackPost) (w : W)
        → Keeps web o ks
        → limit - length results ≡ suc room
        → ((results : List ScrapeResult) (room : ℕ)
            → limit - length results ≡ room
            → Adds items results w (results ++ take room (wanted items)))
        → Adds items (keep_post web results o) w (results ++ take (suc room) (ks ++ wanted items))
    fetched items results ks room o w (dropped f) e ih =
        let (w', h) = ih results (suc room) e in
        (w', ap (λ rs. add_items web fetch_post public_only limit base items rs w) (f results) ∙ h)
    fetched items results ks room o w (kept r f) e ih =
        let (w', h) =
          ih (results ++ (r ∷ [])) room (omega (arith, length-append results (r ∷ []))) in
        (
          w',
          ap (λ rs. add_items web fetch_post public_only limit base items rs w) (f results)
              ∙ h
              ∙ ap (λ rs. (ok rs, w')) (append_assoc results (r ∷ []) (take room (wanted items))),
        )

    pub add_items-Adds :
        (items : List ArchiveItem) (results : List ScrapeResult) (room : ℕ) (w : W)
        → limit - length results ≡ room
        → Adds items results w (results ++ take room (wanted items))
    add_items-Adds items results zero w e = (
      w,
      add_items-full web fetch_post public_only limit base items results w (ground arith)
          ∙ ap (λ rs. (ok rs, w)) (sym (append-nil results)),
    )
    add_items-Adds [] results (suc room) w e =
        (w, unfold add_items wanted in ap (λ rs. (ok rs, w)) (sym (append-nil results)))
    add_items-Adds (i ∷ items) results (suc room) w e =
        elim (Bool-cases (is_skipped public_only i)) [
          | inl k ↦
              let (w', h) = add_items-Adds items results (suc room) w e in
              let same : wanted (i ∷ items) ≡ wanted items = unfold wanted in ground arith in
              (
                w',
                add_items-skips web fetch_post public_only limit base i items results w
                      (ground arith) k
                    ∙ h
                    ∙ ap (λ zs. (ok (results ++ take (suc room) zs), w')) (sym same),
              )
          | inr k ↦
              let url = post_url base i.slug in
              let w1 = (fetch_post url w).1 in
              let reads : fetch_post url w ≡ (ok (replies url), w1) =
                ap (λ o. (o, w1)) (served url w) in
              let same : wanted (i ∷ items) ≡ keep_post web [] (replies url) ++ wanted items =
                unfold wanted in ground arith in
              let (w', h) =
                fetched items results (keep_post web [] (replies url)) room (replies url) w1
                  (keep_post-Keeps web (replies url)) e
                  (λ results room e. add_items-Adds items results room w1 e) in
              (
                w',
                add_items-fetches web fetch_post public_only limit base i items results w
                      (ground arith) k
                    ∙ >>=-ok (fetch_post url)
                        (λ post.
                          add_items web fetch_post public_only limit base items
                            (keep_post web results post))
                        w w1 reads
                    ∙ h
                    ∙ ap (λ zs. (ok (results ++ take (suc room) zs), w')) (sym same),
              )
        ]

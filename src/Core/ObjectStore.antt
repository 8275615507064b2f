-- ===== src/Core/ObjectStore.antt =====
-- scrapeforge/core/objectstore/base.py and memory.py
-- A store is a dict from keys to the bytes and their content type.
use scraper_v_hezzian.Prelude.Dict
use scraper_v_hezzian.Prelude.Dict.{Dict}
use scraper_v_hezzian.Prelude.{string_eq, String, Bool, none, some}
use scraper_v_hezzian.Exceptions.{Action, Exception, ok}

-- How `get` ends: with the bytes, with `ObjectNotFound`, or with another exception.
pub data Fetched (B : Type 0) : Type 0 where
  found : B → Fetched B
  object_not_found : String → Fetched B
  get_error : Exception → Fetched B

module _ (B : Type 0) where
  pub record InMemoryObjectStore : Type 0 where
    pub objects : Dict String (B × String)

module _ {B : Type 0} where
  unfoldable pub put_object : String → B → String → Action (InMemoryObjectStore B) Unit
  put_object key data_ content_type store =
      (ok tt, record { objects = Dict.put store.objects key (data_, content_type) })

  unfoldable pub get_object : InMemoryObjectStore B → String → Fetched B
  get_object store key = elim (Dict.get store.objects key) [
    | none ↦ object_not_found key
    | some (data_, _) ↦ found data_
  ]

  unfoldable pub exists : InMemoryObjectStore B → String → Bool
  exists store key = Dict.contains store.objects key

  unfoldable pub delete : String → Action (InMemoryObjectStore B) Unit
  delete key store = (ok tt, record { objects = Dict.remove store.objects key })

-- ===== src/Core/Db/Tables.antt =====
-- A database in memory; it has the laws that `Database` asks for.
use scraper_v_hezzian.Prelude.{
  string_eq, ◌≡◌, String, Option, none, some, if◌then◌else◌, ◌==◌, List, [], ◌∷◌, refl, Bool-cases,
  inl, inr, arith, eq_iff, ap,
}
use scraper_v_hezzian.Prelude.Dict
use scraper_v_hezzian.Prelude.Dict.{get-put, Dict}
use scraper_v_hezzian.Core.Db.{queued, Job, ArticleRow, Database}

pub record Tables : Type 0 where
  pub jobs : List Job
  pub articles : Dict String ArticleRow

unfoldable pub find_job : List Job → String → Option Job
find_job [] j = none
find_job (r ∷ rs) j = if r.id == j then some r else find_job rs j

unfoldable pub put_job : Job → List Job → List Job
put_job r [] = r ∷ []
put_job r (x ∷ xs) = if x.id == r.id then r ∷ xs else x ∷ put_job r xs

pub id-find_job : (rs : List Job) (j : String) (r : Job) → find_job rs j ≡ some r → r.id ≡ j
unfolding find_job
id-find_job [] j r h = absurd (ground arith)
id-find_job (x ∷ xs) j r h = elim (Bool-cases (x.id == j)) [
  | inl e ↦ ground (arith, eq_iff x.id j)
  | inr e ↦ id-find_job xs j r (ground arith)
]

pub find_job-put_job :
    (r : Job) (rs : List Job) (j : String)
    → find_job (put_job r rs) j ≡ (if r.id == j then some r else find_job rs j)
unfolding find_job put_job
find_job-put_job r [] j = refl
find_job-put_job r (x ∷ xs) j =
    ground (arith, find_job-put_job r xs j, eq_iff x.id r.id, eq_iff x.id j, eq_iff r.id j)

abbrev pub merge_row : ArticleRow → (ArticleRow → ArticleRow) → Option ArticleRow → ArticleRow
merge_row r set_ none = r
merge_row r set_ (some old) = set_ old

pub get-merge_row :
    (r : ArticleRow) (set_ : ArticleRow → ArticleRow) (d : Dict String ArticleRow) (k : String)
    → Dict.get (Dict.put d r.id (merge_row r set_ (Dict.get d r.id))) k ≡ (
        if r.id == k
        then elim (Dict.get d k) [ none ↦ some r | some old ↦ some (set_ old) ]
        else Dict.get d k)
get-merge_row r set_ d k = elim (Bool-cases (r.id == k)) [
  | inl e ↦ ground (
    arith,
    get-put d r.id (merge_row r set_ (Dict.get d r.id)) k,
    ap (Dict.get d) ((eq_iff r.id k).0 e),
  )
  | inr e ↦ ground (arith, get-put d r.id (merge_row r set_ (Dict.get d r.id)) k)
]

abbrev pub tables : Database
tables = record {
  Db = Tables;
  job = λ db j. find_job db.jobs j;
  article = λ db k. Dict.get db.articles k;
  save_job = λ r db. record db { jobs = put_job r db.jobs };
  upsert = λ r set_ db. record db {
    articles = Dict.put db.articles r.id (merge_row r set_ (Dict.get db.articles r.id));
  };
  id-job = λ db j r h. id-find_job db.jobs j r h;
  job-save_job = λ r db j. find_job-put_job r db.jobs j;
  article-save_job = λ r db k. refl;
  job-upsert = λ r set_ db j. refl;
  article-upsert = λ r set_ db k. get-merge_row r set_ db.articles k;
}

-- A job that has just been created.
abbrev pub queued_job : Job
queued_job = record {
  id = "job";
  status = queued;
  source = "api";
  created_at = 0;
  started_at = none;
  finished_at = none;
  result_count = 0;
  error_text = none;
}

-- The database with that job and no article.
abbrev pub with_job : Tables
with_job = record { jobs = queued_job ∷ []; articles = Dict.empty }

-- ===== src/Core/Models/Summaries.antt =====
-- scrapeforge/core/db/models.py, the JSONB column `summary`, and the metadata key of that name.
use scraper_v_hezzian.Prelude.{ℕ, String, Option, List}

pub record Summary : Type 0 where
  pub bullets : List String
  pub scores : List (String × ℕ)
  pub reason : Option String
  pub model : String
  pub generated_at : ℕ

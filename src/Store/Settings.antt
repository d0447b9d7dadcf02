-- ===== src/Store/Settings.antt =====
-- internal/store/config.go.
use subnet_benchmark.Prelude.{
  ℕ, Bool, List, Option, none, some, String, str_eq, ◌==◌, if◌then◌else◌,
}
use subnet_benchmark.Prelude.Sort.{sort_by}
use subnet_benchmark.Model.{ConfigEntry, internal_error, Result, ok, err}
use subnet_benchmark.Store.{Db, M, statement, query}
use subnet_benchmark.Store.Rows.{count_rows, update_rows, find_row}

abbrev pub has_key : String → ConfigEntry → Bool
has_key key c = str_eq c.key key

abbrev pub value_of : Option ConfigEntry → String
value_of none = ""
value_of (some c) = c.value

-- The empty text stands for a missing key.
unfoldable pub get_config : String → M String
unfolding find_row
get_config key = query (λ d. value_of (find_row (has_key key) d.system_config))

unfoldable pub set_row : ℕ → String → String → Db → Result (Unit {0}) × Db
unfolding count_rows update_rows
set_row now key value d =
    if count_rows (has_key key) d.system_config == 0 then (err internal_error, d) else (
      ok tt,
      record d {
        system_config =
            update_rows (has_key key) (λ c. record c { value = value; updated_at = now })
              d.system_config;
      },
    )

-- The UPDATE, then the error when it found no row.
unfoldable pub set_config : ℕ → String → String → M (Unit {0})
unfolding set_row
set_config now key value = statement (set_row now key value)

-- ORDER BY key; `text_le` is the collation of the database.
unfoldable pub list_config : (String → String → Bool) → M (List ConfigEntry)
list_config text_le = query (λ d. sort_by (λ a b. text_le a.key b.key) d.system_config)

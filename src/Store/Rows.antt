-- ===== src/Store/Rows.antt =====
-- Rows of a table: WHERE, COUNT(*), UPDATE and ORDER BY, by Boolean tests on a row.
use subnet_benchmark.Prelude.{
  ℕ, ◌+◌, ◌%◌, Bool, List, [], ◌∷◌, Option, none, some, length, get_elem?, leb, if◌then◌else◌,
}
use subnet_benchmark.Prelude.Sort.{sort_by}

module _ {ℓ} {A : Type ℓ} where
  unfoldable pub select : (A → Bool) → List A → List A
  select test [] = []
  select test (x ∷ xs) = let rest = select test xs in if test x then x ∷ rest else rest

  unfoldable pub count_rows : (A → Bool) → List A → ℕ
  count_rows test [] = 0
  count_rows test (x ∷ xs) = (if test x then 1 else 0) + count_rows test xs

  unfoldable pub update_rows : (A → Bool) → (A → A) → List A → List A
  update_rows test change [] = []
  update_rows test change (x ∷ xs) = (if test x then change x else x) ∷ update_rows test change xs

  -- The row with a key: the first that passes the test.
  unfoldable pub find_row : (A → Bool) → List A → Option A
  find_row test [] = none
  find_row test (x ∷ xs) = let later = find_row test xs in if test x then some x else later

  -- Of several rows the database returns any one first; `row` says which.
  unfoldable pub any_row : ℕ → List A → Option A
  any_row row xs = get_elem? xs (row % length xs)

  -- ORDER BY key, and ORDER BY key DESC LIMIT 1
  unfoldable pub order_by : (A → ℕ) → List A → List A
  order_by key xs = sort_by (λ a b. leb (key a) (key b)) xs

  unfoldable pub latest : (A → ℕ) → List A → Option A
  latest key [] = none
  latest key (x ∷ xs) = elim (latest key xs) [
    | none ↦ some x
    | some y ↦ if leb (key y) (key x) then some x else some y
  ]

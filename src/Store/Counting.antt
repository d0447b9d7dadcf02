-- ===== src/Store/Counting.antt =====
-- Numbers of rows: how they change when rows are added, updated, selected or reordered.
use mathlib.Core.List.{Permᴰ}
use mathlib.Core.Logic.{∥∥₁_elim}
use native.Mathlib.Nat.{ℕ_set}
use subnet_benchmark.Prelude.{
  ℕ, ◌+◌, ◌≤◌, ◌≡◌, refl, ◌∙◌, Bool, true, ◌&&◌, List, [], ◌∷◌, ◌++◌, Perm, arith, length, leb,
}
use subnet_benchmark.Prelude.Sort.{sort_by-perm}
use subnet_benchmark.Store.Rows.{select, count_rows, update_rows, order_by}

module _ {ℓ} {A : Type ℓ} (test : A → Bool) where
  pub count_rows-append :
      (xs ys : List A) → count_rows test (xs ++ ys) ≡ count_rows test xs + count_rows test ys
  unfolding count_rows
  count_rows-append [] ys = omega arith
  count_rows-append (x ∷ xs) ys = omega (arith, count_rows-append xs ys)

  pub count_rows-le-length : (xs : List A) → count_rows test xs ≤ length xs
  unfolding count_rows
  count_rows-le-length [] = omega arith
  count_rows-le-length (x ∷ xs) = ground (arith, count_rows-le-length xs)

  pub length-select : (xs : List A) → length (select test xs) ≡ count_rows test xs
  unfolding count_rows select
  length-select [] = refl
  length-select (x ∷ xs) = ground (arith, length-select xs)

  count_rows-permᴰ : {xs ys : List A} → Permᴰ xs ys → count_rows test xs ≡ count_rows test ys
  unfolding count_rows
  count_rows-permᴰ Permᴰ.nil = refl
  count_rows-permᴰ (Permᴰ.cons e d) = rw e (omega (arith, count_rows-permᴰ d))
  count_rows-permᴰ (Permᴰ.swap e f) = rw (e, f) (omega arith)
  count_rows-permᴰ (Permᴰ.trans d e) = count_rows-permᴰ d ∙ count_rows-permᴰ e

  pub count_rows-perm : {xs ys : List A} → Perm xs ys → count_rows test xs ≡ count_rows test ys
  count_rows-perm {xs} {ys} p =
      ∥∥₁_elim p (ℕ_set (count_rows test xs) (count_rows test ys)) (λ d. count_rows-permᴰ d)

  pub count_rows-order_by :
      (key : A → ℕ) (xs : List A) → count_rows test (order_by key xs) ≡ count_rows test xs
  unfolding order_by
  count_rows-order_by key xs = count_rows-perm (sort_by-perm (λ a b. leb (key a) (key b)) xs)

  -- An update that makes no row pass the test does not raise the number.
  pub count_rows-update-le :
      (where_ : A → Bool) (change : A → A) (xs : List A)
      → ((x : A) → where_ x ≡ true → test (change x) ≡ true → test x ≡ true)
      → count_rows test (update_rows where_ change xs) ≤ count_rows test xs
  unfolding count_rows update_rows
  count_rows-update-le where_ change [] h = omega arith
  count_rows-update-le where_ change (x ∷ xs) h =
      ground (arith, h x, count_rows-update-le where_ change xs h)

  pub count_rows-update_same :
      (where_ : A → Bool) (change : A → A) (xs : List A)
      → ((x : A) → where_ x ≡ true → test (change x) ≡ test x)
      → count_rows test (update_rows where_ change xs) ≡ count_rows test xs
  unfolding count_rows update_rows
  count_rows-update_same where_ change [] h = refl
  count_rows-update_same where_ change (x ∷ xs) h =
      ground (arith, h x, count_rows-update_same where_ change xs h)

module _ {ℓ} {A : Type ℓ} where
  pub count_rows_mono :
      (p q : A → Bool) (xs : List A)
      → ((x : A) → p x ≡ true → q x ≡ true)
      → count_rows p xs ≤ count_rows q xs
  unfolding count_rows
  count_rows_mono p q [] h = omega arith
  count_rows_mono p q (x ∷ xs) h = ground (arith, h x, count_rows_mono p q xs h)

  pub count_rows-select :
      (p q : A → Bool) (xs : List A) → count_rows p (select q xs) ≡ count_rows (λ x. p x && q x) xs
  unfolding count_rows select
  count_rows-select p q [] = refl
  count_rows-select p q (x ∷ xs) = ground (arith, count_rows-select p q xs)

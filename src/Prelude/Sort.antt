-- ===== src/Prelude/Sort.antt =====
-- Insertion sort by a comparison, for `sort.Slice` and for `ORDER BY`.
use mathlib.Core.Path.{◌≡◌, refl, ◌∙◌, sym}
use mathlib.Core.Bool.{Bool, true}
use mathlib.Core.Logic.{◌⊎◌, inl, inr, ∥∥₁_elim}
use mathlib.Core.List.{List, [], ◌∷◌, Perm, Permᴰ}
use mathlib.Core.List.Perm
use native.Mathlib.Omega.{arith}
use subnet_benchmark.Prelude.Tests.{if◌then◌else◌, Bool-cases}

module _ {ℓ} {A : Type ℓ} (le : A → A → Bool) where
  -- Equal entries keep their order.
  abbrev pub insert_by : A → List A → List A
  insert_by a [] = a ∷ []
  insert_by a (x ∷ xs) = if le a x then a ∷ x ∷ xs else x ∷ insert_by a xs

  abbrev pub sort_by : List A → List A
  sort_by [] = []
  sort_by (x ∷ xs) = insert_by x (sort_by xs)

  pub insert_by-perm : (a : A) (xs : List A) → Perm (insert_by a xs) (a ∷ xs)
  insert_by-perm a [] = Perm.refl (a ∷ [])
  insert_by-perm a (x ∷ xs) = elim (Bool-cases (le a x)) [
    | inl e ↦ rw e (Perm.refl (a ∷ x ∷ xs))
    | inr e ↦ rw e (Perm.trans (Perm.cons x (insert_by-perm a xs)) (Perm.swap a x xs))
  ]

  pub sort_by-perm : (xs : List A) → Perm (sort_by xs) xs
  sort_by-perm [] = Perm.refl []
  sort_by-perm (x ∷ xs) = Perm.trans (insert_by-perm x (sort_by xs)) (Perm.cons x (sort_by-perm xs))

-- The comparison is a total order.
pub record IsTotalOrder {ℓ} {A : Type ℓ} (le : A → A → Bool) : Type ℓ where
  pub total : (a b : A) → (le a b ≡ true) ⊎ (le b a ≡ true)
  pub antisymm : (a b : A) → le a b ≡ true → le b a ≡ true → a ≡ b
  pub trans : (a b c : A) → le a b ≡ true → le b c ≡ true → le a c ≡ true

module _ {ℓ} {A : Type ℓ} (le : A → A → Bool) (o : IsTotalOrder le) where
  insert_by_comm_le :
      (a b : A) (xs : List A)
      → le a b ≡ true
      → insert_by le a (insert_by le b xs) ≡ insert_by le b (insert_by le a xs)
  insert_by_comm_le a b [] h = ground (arith, o.antisymm a b)
  insert_by_comm_le a b (x ∷ xs) h =
      ground (arith, o.antisymm a b, o.trans a b x, o.total a b, insert_by_comm_le a b xs)

  pub insert_by_comm :
      (a b : A) (xs : List A)
      → insert_by le a (insert_by le b xs) ≡ insert_by le b (insert_by le a xs)
  insert_by_comm a b xs = elim (o.total a b) [
    | inl h ↦ insert_by_comm_le a b xs h
    | inr h ↦ sym (insert_by_comm_le b a xs h)
  ]

  sort_by-permᴰ : {xs ys : List A} → Permᴰ xs ys → sort_by le xs ≡ sort_by le ys
  sort_by-permᴰ Permᴰ.nil = refl
  sort_by-permᴰ (Permᴰ.cons {b = b} {l₁ = xs} e d) = rw (e, sort_by-permᴰ d)
  sort_by-permᴰ (Permᴰ.swap {a = a} {b = b} {l = l} e f) =
      rw (e, f) (insert_by_comm _ _ (sort_by le l))
  sort_by-permᴰ (Permᴰ.trans d e) = sort_by-permᴰ d ∙ sort_by-permᴰ e

  -- Sorting forgets the order in which the entries came.
  pub sort_by-eq_of_perm :
      IsSet (List A) → {xs ys : List A} → Perm xs ys → sort_by le xs ≡ sort_by le ys
  sort_by-eq_of_perm s {xs} {ys} p =
      ∥∥₁_elim p (s (sort_by le xs) (sort_by le ys)) (λ d. sort_by-permᴰ d)

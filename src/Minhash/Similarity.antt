-- ===== src/Minhash/Similarity.antt =====
-- The similarity of two signatures, and the limit from which a question counts as a duplicate.
use subnet_benchmark.Prelude.{ℕ, ◌≤◌, ◌≡◌, refl, subst, ◌↔◌, true, [], ◌∷◌, arith, length}
use subnet_benchmark.Minhash.{Signature, matches, jaccard_reaches}
use subnet_benchmark.Minhash.Codec.{IsSignature}

pub matches_self : (a : Signature) → matches a a ≡ length a
unfolding matches
matches_self [] = refl
matches_self (x ∷ xs) = ground (arith, matches_self xs)

pub matches_comm : (a b : Signature) → matches a b ≡ matches b a
unfolding matches
matches_comm [] [] = refl
matches_comm [] (y ∷ ys) = refl
matches_comm (x ∷ xs) [] = refl
matches_comm (x ∷ xs) (y ∷ ys) = ground (arith, matches_comm xs ys)

pub matches-le : (a b : Signature) → matches a b ≤ length a
unfolding matches
matches-le [] b = omega arith
matches-le (x ∷ xs) [] = omega arith
matches-le (x ∷ xs) (y ∷ ys) = ground (arith, matches-le xs ys)

-- All slots agree only where the signatures are the same.
pub matches-full : (a b : Signature) → length a ≡ length b → matches a b ≡ length a → a ≡ b
unfolding matches
matches-full [] [] h e = refl
matches-full [] (y ∷ ys) h e = absurd (omega arith)
matches-full (x ∷ xs) [] h e = absurd (omega arith)
matches-full (x ∷ xs) (y ∷ ys) h e = ground (arith, matches-le xs ys, matches-full xs ys)

-- A signature reaches every limit up to 1.0 against itself.
pub jaccard_reaches_self :
    (limit : ℕ) (a : Signature) → limit ≤ 10000 → IsSignature a → jaccard_reaches limit a a ≡ true
unfolding jaccard_reaches
jaccard_reaches_self limit a h s = ground (arith, matches_self a, s.slots)

-- Of signatures of 128 values of uint64, a limit of 1.0 is reached exactly by equal ones.
pub jaccard_reaches_one_iff :
    (a b : Signature) → IsSignature a → IsSignature b → (jaccard_reaches 10000 a b ≡ true) ↔ (a ≡ b)
jaccard_reaches_one_iff a b sa sb = (
  λ h. matches-full a b (omega arith) (unfold jaccard_reaches in ground (arith, matches-le a b)),
  λ e.
      subst (λ x. jaccard_reaches 10000 a x ≡ true) e
        (jaccard_reaches_self 10000 a (omega arith) sa),
)

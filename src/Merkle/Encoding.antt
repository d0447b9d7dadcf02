-- ===== src/Merkle/Encoding.antt =====
-- What abi.encode tells of a well-formed leaf.
use native.Mathlib.Nat.{pow-suc}
use subnet_benchmark.Prelude.{
  ℕ, zero, suc, ◌/◌, ◌%◌, ◌^◌, ◌<◌, ◌≡◌, refl, List, [], ◌∷◌, ◌++◌, length, length-append, arith,
}
use subnet_benchmark.Merkle.Hash.{Leaf, big_endian, encode_leaf}

pub append_inj {ℓ} :
    {A : Type ℓ} (us xs : List A) {bs ys : List A}
    → length us ≡ length xs
    → us ++ bs ≡ xs ++ ys
    → (us ≡ xs) × (bs ≡ ys)
append_inj [] [] h e = (refl, e)
append_inj [] (x ∷ xs) h e = absurd (omega arith)
append_inj (u ∷ us) [] h e = absurd (omega arith)
append_inj (u ∷ us) (x ∷ xs) {bs} {ys} h e =
    let rest : (us ≡ xs) × (bs ≡ ys) = append_inj us xs (omega arith) (cc) in
    (ground (arith, rest.0), rest.1)

pub length-big_endian : (k n : ℕ) → length (big_endian k n) ≡ k
unfolding big_endian
length-big_endian zero n = refl
length-big_endian (suc k) n = omega (
  arith,
  length-append {0} (big_endian k (n / 256)) (n % 256 ∷ []),
  length-big_endian k (n / 256),
)

big_endian_inj : (k n m : ℕ) → n < 256 ^ k → m < 256 ^ k → big_endian k n ≡ big_endian k m → n ≡ m
unfolding big_endian
big_endian_inj zero n m hn hm e = omega arith
big_endian_inj (suc k) n m hn hm e =
    let size : length (big_endian k (n / 256)) ≡ length (big_endian k (m / 256)) =
      omega (arith, length-big_endian k (n / 256), length-big_endian k (m / 256)) in
    let parts = append_inj (big_endian k (n / 256)) (big_endian k (m / 256)) size e in
    let high =
      big_endian_inj k (n / 256) (m / 256) (omega (arith, pow-suc 256 k))
        (omega (arith, pow-suc 256 k)) parts.0 in
    let low : n % 256 ≡ m % 256 = cc parts.1 in omega arith

-- What the types of common.Address and of an int64 amount guarantee.
pub record IsWellFormed (leaf : Leaf) : Type 0 where
  pub address_size : length leaf.address ≡ 20
  pub amount_fits : leaf.amount < 256 ^ 32

-- Two well-formed leaves with the same encoding are the same leaf.
pub encode_leaf_inj :
    (a b : Leaf) → IsWellFormed a → IsWellFormed b → encode_leaf a ≡ encode_leaf b → a ≡ b
unfolding encode_leaf
encode_leaf_inj a b wa wb e =
    let parts = append_inj a.address b.address (omega arith) (cc) in
    let amounts = big_endian_inj 32 a.amount b.amount wa.amount_fits wb.amount_fits parts.1 in
    λ i. record { address = parts.0 i; amount = amounts i }

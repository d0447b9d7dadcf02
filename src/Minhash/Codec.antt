-- ===== src/Minhash/Codec.antt =====
-- Signatures of 128 values of uint64, their bytes, and what is read back.
use native.Mathlib.Nat.{pow-suc}
use subnet_benchmark.Prelude.{
  ℕ, zero, suc, ◌*◌, ◌/◌, ◌^◌, ◌<◌, ◌≡◌, refl, subst, ap, ◌∙◌, List, [], ◌∷◌, ◌++◌, length,
  length-append, take, drop, take-length-append, drop-length-append, arith, ltb, false,
}
use subnet_benchmark.Minhash.{
  Signature, num_hashes, signature_size, put_uint64, to_bytes, uint64_of, read_slots, from_bytes,
}

abbrev pub AllBelow : ℕ → List ℕ → Type 0
AllBelow n [] = Unit
AllBelow n (x ∷ xs) = (x < n) × AllBelow n xs

-- 128 values of uint64.
pub record IsSignature (sig : Signature) : Type 0 where
  pub slots : length sig ≡ num_hashes
  pub fits : AllBelow (2 ^ 64) sig

length-put_uint64 : (k v : ℕ) → length (put_uint64 k v) ≡ k
unfolding put_uint64
length-put_uint64 zero v = refl
length-put_uint64 (suc k) v = omega (arith, length-put_uint64 k (v / 256))

uint64_of-put_uint64 : (k v : ℕ) → v < 256 ^ k → uint64_of (put_uint64 k v) ≡ v
unfolding put_uint64 uint64_of
uint64_of-put_uint64 zero v h = omega arith
uint64_of-put_uint64 (suc k) v h =
    omega (arith, uint64_of-put_uint64 k (v / 256) (omega (arith, pow-suc 256 k)))

take-put : (v : ℕ) (bytes : List ℕ) → take 8 (put_uint64 8 v ++ bytes) ≡ put_uint64 8 v
take-put v bytes =
    subst (λ n. take n (put_uint64 8 v ++ bytes) ≡ put_uint64 8 v) (length-put_uint64 8 v)
      (take-length-append (put_uint64 8 v) bytes)

drop-put : (v : ℕ) (bytes : List ℕ) → drop 8 (put_uint64 8 v ++ bytes) ≡ bytes
drop-put v bytes =
    subst (λ n. drop n (put_uint64 8 v ++ bytes) ≡ bytes) (length-put_uint64 8 v)
      (drop-length-append (put_uint64 8 v) bytes)

length-to_bytes : (sig : Signature) → length (to_bytes sig) ≡ length sig * 8
unfolding to_bytes
length-to_bytes [] = refl
length-to_bytes (v ∷ vs) = omega (
  arith,
  length-append {0} (put_uint64 8 v) (to_bytes vs),
  length-put_uint64 8 v,
  length-to_bytes vs,
)

read_slots-put :
    (k v : ℕ) (bytes : List ℕ)
    → v < 2 ^ 64
    → read_slots (suc k) (put_uint64 8 v ++ bytes) ≡ v ∷ read_slots k bytes
read_slots-put k v bytes h =
    unfold read_slots in rw (take-put v bytes, drop-put v bytes, uint64_of-put_uint64 8 v h)

read_slots-to_bytes :
    (sig : Signature) → AllBelow (2 ^ 64) sig → read_slots (length sig) (to_bytes sig) ≡ sig
unfolding to_bytes
read_slots-to_bytes [] h = unfold read_slots in refl
read_slots-to_bytes (v ∷ vs) h =
    read_slots-put (length vs) v (to_bytes vs) h.0 ∙ ap (◌∷◌ v) (read_slots-to_bytes vs h.1)

-- Every signature of 128 values of uint64 is read back from its bytes unchanged.
pub from_bytes-to_bytes : (sig : Signature) → IsSignature sig → from_bytes (to_bytes sig) ≡ sig
unfolding from_bytes
from_bytes-to_bytes sig s =
    let size : ltb (length (to_bytes sig)) signature_size ≡ false =
      ground (arith, length-to_bytes sig, s.slots) in
    let slots : read_slots num_hashes (to_bytes sig) ≡ sig =
      subst (λ n. read_slots n (to_bytes sig) ≡ sig) s.slots (read_slots-to_bytes sig s.fits) in
    rw (size, slots)

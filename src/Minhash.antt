-- ===== src/Minhash.antt =====
-- internal/minhash/minhash.go: MinHash signatures of question texts. A text is the list of its
-- code points (Go's []rune of a valid UTF-8 string); a byte slice is a list of bytes. Arithmetic
-- on uint64 wraps at 2 ^ 64.
pub mod Codec
pub mod Minimum
pub mod Slots
pub mod Similarity
use Prim.Native.Nat.{bit_xor}
use subnet_benchmark.Prelude.{
  Bool, ℕ, zero, suc, ◌+◌, ◌-◌, ◌*◌, ◌/◌, ◌%◌, ◌^◌, List, [], ◌∷◌, ◌++◌, length, take, drop,
  replicate, foldl, ltb, leb, ◌==◌, if◌then◌else◌,
}

abbrev pub num_hashes : ℕ
num_hashes = 128

abbrev pub ngram_size : ℕ
ngram_size = 3

abbrev pub signature_size : ℕ
signature_size = num_hashes * 8

abbrev pub max_uint64 : ℕ
max_uint64 = 2 ^ 64 - 1

abbrev pub Signature : Type 0
Signature = List ℕ

-- The UTF-8 bytes of a code point, as the conversions string(runes) and []byte(s) give them.
unfoldable pub utf8 : ℕ → List ℕ
utf8 c =
    if ltb c 0x80
    then c ∷ []
    else if ltb c 0x800
    then (0xC0 + c / 64) ∷ (0x80 + c % 64) ∷ []
    else if ltb c 0x10000
    then (0xE0 + c / 4096) ∷ (0x80 + c / 64 % 64) ∷ (0x80 + c % 64) ∷ []
    else (0xF0 + c / 262144) ∷ (0x80 + c / 4096 % 64) ∷ (0x80 + c / 64 % 64) ∷ (0x80 + c % 64) ∷ []

unfoldable pub to_utf8 : List ℕ → List ℕ
unfolding utf8
to_utf8 [] = []
to_utf8 (c ∷ cs) = utf8 c ++ to_utf8 cs

-- The windows that begin at `i`, `i + 1`, …, `rounds` of them.
unfoldable pub windows : ℕ → ℕ → ℕ → List ℕ → List (List ℕ)
windows zero i n runes = []
windows (suc rounds) i n runes = take n (drop i runes) ∷ windows rounds (i + 1) n runes

unfoldable pub extract_ngrams : List ℕ → ℕ → List (List ℕ)
unfolding windows
extract_ngrams runes n =
    if ltb (length runes) n
    then if ltb 0 (length runes) then runes ∷ [] else []
    else windows (length runes - n + 1) 0 n runes

abbrev fnv_loop : ℕ → List ℕ → ℕ
fnv_loop h [] = h
fnv_loop h (b ∷ bs) = fnv_loop (bit_xor h b * 1099511628211 % 2 ^ 64) bs

unfoldable pub hash_with_seed : List ℕ → ℕ → ℕ
hash_with_seed bytes seed = fnv_loop (bit_xor 14695981039346656037 seed) bytes

module _ (hash : List ℕ → ℕ → ℕ) where
  -- The inner loop over the slots of a signature, from slot `i`.
  unfoldable pub lower_slots : List ℕ → ℕ → Signature → Signature
  lower_slots bytes i [] = []
  lower_slots bytes i (slot ∷ slots) =
      (if ltb (hash bytes i) slot then hash bytes i else slot) ∷ lower_slots bytes (i + 1) slots

  -- The loop over the n-grams.
  unfoldable pub lower_all : List (List ℕ) → Signature → Signature
  unfolding lower_slots to_utf8
  lower_all [] sig = sig
  lower_all (ng ∷ ngs) sig = lower_all ngs (lower_slots (to_utf8 ng) 0 sig)

unfoldable pub generate : List ℕ → Signature
unfolding lower_all hash_with_seed extract_ngrams
generate text =
    lower_all hash_with_seed (extract_ngrams text ngram_size) (replicate num_hashes max_uint64)

-- The number of equal slots; the similarity is this number over 128.
unfoldable pub matches : Signature → Signature → ℕ
matches [] bs = 0
matches (a ∷ xs) [] = 0
matches (a ∷ xs) (b ∷ ys) = (if a == b then 1 else 0) + matches xs ys

-- Jaccard(a, b) >= the limit, which is given in ten-thousandths.
unfoldable pub jaccard_reaches : ℕ → Signature → Signature → Bool
unfolding matches
jaccard_reaches limit a b = leb (limit * num_hashes) (matches a b * 10000)

unfoldable pub put_uint64 : ℕ → ℕ → List ℕ
put_uint64 zero v = []
put_uint64 (suc k) v = v % 256 ∷ put_uint64 k (v / 256)

unfoldable pub to_bytes : Signature → List ℕ
unfolding put_uint64
to_bytes [] = []
to_bytes (v ∷ vs) = put_uint64 8 v ++ to_bytes vs

unfoldable pub uint64_of : List ℕ → ℕ
uint64_of [] = 0
uint64_of (b ∷ bs) = b + 256 * uint64_of bs

unfoldable pub read_slots : ℕ → List ℕ → Signature
unfolding uint64_of
read_slots zero bytes = []
read_slots (suc k) bytes = uint64_of (take 8 bytes) ∷ read_slots k (drop 8 bytes)

unfoldable pub from_bytes : List ℕ → Signature
unfolding read_slots
from_bytes bytes =
    if ltb (length bytes) signature_size
    then replicate num_hashes 0
    else read_slots num_hashes bytes

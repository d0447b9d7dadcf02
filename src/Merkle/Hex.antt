-- ===== src/Merkle/Hex.antt =====
-- Hashes as hexadecimal text (HashToHex, ProofToHex, HexToHash), and what is read back. A text is the
-- list of its character codes.
use mathlib.Core.Option
use subnet_benchmark.Prelude.{
  ℕ, ◌+◌, ◌-◌, ◌*◌, ◌/◌, ◌%◌, ◌<◌, ◌≡◌, refl, ap, ◌&&◌, List, [], ◌∷◌, ◌++◌, map, length, drop,
  replicate, Option, none, some, arith, ltb, leb, ◌==◌, if◌then◌else◌,
}
use subnet_benchmark.Merkle.Hash.{Hash}
use subnet_benchmark.Minhash.Codec.{AllBelow}

-- The digit of hex.EncodeToString.
unfoldable pub hex_digit : ℕ → ℕ
hex_digit n = if ltb n 10 then 48 + n else 87 + n

unfoldable pub encode_hex : List ℕ → List ℕ
unfolding hex_digit
encode_hex [] = []
encode_hex (b ∷ bytes) = hex_digit (b / 16) ∷ hex_digit (b % 16) ∷ encode_hex bytes

-- "0x", then the digits.
unfoldable pub hash_to_hex : Hash → List ℕ
unfolding encode_hex
hash_to_hex h = 48 ∷ 120 ∷ encode_hex h

unfoldable pub proof_to_hex : List Hash → List (List ℕ)
unfolding hash_to_hex
proof_to_hex path = map hash_to_hex path

-- A digit in either case.
unfoldable pub hex_value : ℕ → Option ℕ
hex_value c =
    if leb 48 c && leb c 57
    then some (c - 48)
    else if leb 97 c && leb c 102
    then some (c - 87)
    else if leb 65 c && leb c 70
    then some (c - 55)
    else none

abbrev pub join_digits : Option ℕ → Option ℕ → Option (List ℕ) → Option (List ℕ)
join_digits (some high) (some low) (some bytes) = some ((high * 16 + low) ∷ bytes)
join_digits _ _ _ = none

-- hex.DecodeString: an odd number of digits is an error.
unfoldable pub decode_hex : List ℕ → Option (List ℕ)
unfolding hex_value
decode_hex [] = some []
decode_hex (c ∷ []) = none
decode_hex (c ∷ d ∷ text) = join_digits (hex_value c) (hex_value d) (decode_hex text)

-- strings.TrimPrefix(s, "0x")
unfoldable pub trim_prefix : List ℕ → List ℕ
trim_prefix [] = []
trim_prefix (c ∷ []) = c ∷ []
trim_prefix (c ∷ d ∷ text) = if (c == 48) && (d == 120) then text else c ∷ d ∷ text

-- common.BytesToHash: cut or padded on the left to 32 bytes.
unfoldable pub bytes_to_hash : List ℕ → Hash
bytes_to_hash bytes = replicate (32 - length bytes) 0 ++ drop (length bytes - 32) bytes

unfoldable pub hex_to_hash : List ℕ → Option Hash
unfolding trim_prefix decode_hex bytes_to_hash
hex_to_hash text = Option.map bytes_to_hash (decode_hex (trim_prefix text))

hex_value-hex_digit : (n : ℕ) → n < 16 → hex_value (hex_digit n) ≡ some n
unfolding hex_value hex_digit
hex_value-hex_digit n h = ground arith

decode_hex-encode_hex :
    (bytes : List ℕ) → AllBelow 256 bytes → decode_hex (encode_hex bytes) ≡ some bytes
unfolding encode_hex decode_hex
decode_hex-encode_hex [] h = refl
decode_hex-encode_hex (b ∷ bytes) h =
    rw
      (
        hex_value-hex_digit (b / 16) (omega (arith, h.0)),
        hex_value-hex_digit (b % 16) (omega arith),
        decode_hex-encode_hex bytes h.1,
      )
      (ap (λ (x : ℕ). some (x ∷ bytes)) (omega arith))

-- A hash of 32 bytes is read back unchanged from its hexadecimal text.
pub hex_to_hash-hash_to_hex :
    (h : Hash) → length h ≡ 32 → AllBelow 256 h → hex_to_hash (hash_to_hex h) ≡ some h
unfolding hex_to_hash hash_to_hex trim_prefix bytes_to_hash
hex_to_hash-hash_to_hex h size bytes = rw (decode_hex-encode_hex h bytes, size) refl

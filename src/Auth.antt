-- ===== src/Auth.antt =====
-- internal/auth/auth.go. A text is the list of its bytes. SHA-256, Keccak-256, the recovery of a
-- public key and the reading and writing of addresses are parameters: packages of Go and go-ethereum.
pub mod Timestamps
pub mod Worker
pub mod Signed
pub mod Checks
pub mod Admission
pub mod Entry
use Prim.Native.Char.{code}
use Prim.Native.String
use subnet_benchmark.Prelude.{
  ℕ, zero, suc, ◌+◌, ◌-◌, ◌*◌, ◌/◌, ◌%◌, Bool, true, false, List, [], ◌∷◌, ◌++◌, map, length, take,
  drop, Option, none, some, String, ltb, leb, ◌==◌, if◌then◌else◌,
}
use subnet_benchmark.Merkle.Hash.{Hash}
use subnet_benchmark.Merkle.Hex.{encode_hex, decode_hex, trim_prefix}

-- `recover` is SigToPub and PubkeyToAddress, `address_text` is Address.Hex.
pub record Crypto : Type 0 where
  pub sha256 : List ℕ → List ℕ
  pub keccak256 : List ℕ → Hash
  pub recover : Hash → List ℕ → Option (List ℕ)
  pub is_hex_address : List ℕ → Bool
  pub hex_to_address : List ℕ → List ℕ
  pub address_text : List ℕ → String

-- The bytes of an ASCII text.
abbrev pub bytes_of : String → List ℕ
bytes_of String.[] = []
bytes_of (String.◌∷◌ c s) = code c ∷ bytes_of s

-- A number in decimal, before the text `rest`, with the rounds left: one for each digit is enough,
-- and a number has no more digits than its successor.
unfoldable pub decimal_loop : ℕ → ℕ → List ℕ → List ℕ
decimal_loop zero n rest = rest
decimal_loop (suc rounds) n rest =
    if ltb n 10 then (48 + n) ∷ rest else decimal_loop rounds (n / 10) ((48 + n % 10) ∷ rest)

unfoldable pub decimal : ℕ → List ℕ
unfolding decimal_loop
decimal n = decimal_loop (suc n) n []

-- "\x19Ethereum Signed Message:\n%d%s"
unfoldable pub personal_text : List ℕ → List ℕ
unfolding decimal
personal_text message =
    25 ∷ bytes_of "Ethereum Signed Message:" ++ 10 ∷ decimal (length message) ++ message

abbrev pub lower_v : ℕ → ℕ
lower_v v = if leb 27 v then v - 27 else v

-- The last of the 65 bytes is 27 or 28 in some wallets, 0 or 1 in others.
abbrev pub normalized : List ℕ → List ℕ
normalized signature = take 64 signature ++ map lower_v (drop 64 signature)

abbrev pub recover_from : Crypto → List ℕ → Option (List ℕ) → Option (List ℕ)
recover_from c message none = none
recover_from c message (some signature) =
    if length signature == 65
    then c.recover (c.keccak256 (personal_text message)) (normalized signature)
    else none

-- VerifySignature with hexDecode
unfoldable pub verify_signature : Crypto → List ℕ → List ℕ → Option (List ℕ)
unfolding personal_text decode_hex trim_prefix
verify_signature c message text = recover_from c message (decode_hex (trim_prefix text))

unfoldable pub build_sign_message : List ℕ → List ℕ → List ℕ → List ℕ → List ℕ
build_sign_message method path timestamp body_hash = method ++ path ++ timestamp ++ body_hash

unfoldable pub hash_body : Crypto → List ℕ → List ℕ
unfolding encode_hex
hash_body c body = encode_hex (c.sha256 body)

unfoldable pub address_from_hex : Crypto → List ℕ → Option (List ℕ)
address_from_hex c text = if c.is_hex_address text then some (c.hex_to_address text) else none

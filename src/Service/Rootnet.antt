-- ===== src/Service/Rootnet.antt =====
-- internal/service/rootnet.go: what the server makes of the answers of the AWP RootNet. The requests
-- are parameters: a function from an address and the number of the attempt to the response.
use Prim.Native.Char.{Char, code}
use Prim.Native.String.{char_at}
use subnet_benchmark.Prelude.{
  ℕ, ◌-◌, Bool, ◌&&◌, ◌||◌, Option, none, some, String, str_eq, leb, ◌==◌, if◌then◌else◌,
}
use subnet_benchmark.Model.{internal_error, Result, ok, err}

-- strings.ToLower on ASCII, which addresses are.
abbrev pub lower_char : Char → Char
lower_char c =
    if leb 65 (code c) && leb (code c) 90
    then char_at "abcdefghijklmnopqrstuvwxyz" (code c - 65)
    else c

unfoldable pub to_lower : String → String
to_lower String.[] = String.[]
to_lower (String.◌∷◌ c s) = String.◌∷◌ (lower_char c) (to_lower s)

-- An HTTP response: its status, and its body unless it does not decode.
pub record Response (A : Type 0) : Type 0 where
  pub status : ℕ
  pub body : Option A

pub record AddressCheck : Type 0 where
  pub is_registered : Bool
  pub is_registered_user : Bool
  pub is_registered_agent : Bool

abbrev decode : {A B : Type 0} → Option A → (A → Result B) → Result B
decode none f = err internal_error
decode (some a) f = f a

abbrev receive : {A B : Type 0} → Result (Response A) → (A → Result B) → Result B
receive (err e) f = err e
receive (ok resp) f = if resp.status == 200 then decode resp.body f else err internal_error

-- IsRegistered
unfoldable pub is_registered : Result (Response AddressCheck) → Result Bool
is_registered response =
    receive response (λ c. ok (c.is_registered || c.is_registered_user || c.is_registered_agent))

-- GetRewardRecipient: without a recipient of its own a worker is its own.
unfoldable pub get_reward_recipient : Result (Response String) → String → Result String
unfolding to_lower
get_reward_recipient response worker = receive response (λ r.
    if str_eq r "" || str_eq r "0x0000000000000000000000000000000000000000"
    then ok (to_lower worker)
    else ok (to_lower r))

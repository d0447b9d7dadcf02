-- ===== src/Service/Onchain.antt =====
-- internal/service/onchain.go: the publication of an epoch's root. What happens on the chain is a
-- parameter: from the configuration, the number of the epoch and the root to success or failure.
use subnet_benchmark.Prelude.{
  ℕ, ◌+◌, ◌-◌, ◌*◌, ◌/◌, ◌%◌, ◌^◌, Bool, ◌||◌, List, [], ◌∷◌, Option, none, some, String, str_eq,
  ltb, leb, if◌then◌else◌,
}
use subnet_benchmark.Model.{internal_error, Result, ok, err}
use subnet_benchmark.Store.{M, ◌>>=◌, fail}
use subnet_benchmark.Store.Proofs.{get_epoch_merkle_root, set_epoch_published}
use subnet_benchmark.Service.Config.{RuntimeConfig, second}

pub record OnchainConfig : Type 0 where
  pub rpc_url : String
  pub contract_address : String
  pub private_key_hex : String
  pub chain_id : ℕ

pub record OnchainService : Type 0 where
  pub config : OnchainConfig
  pub rt_config : Option RuntimeConfig
  pub send : OnchainConfig → ℕ → List ℕ → Result (Unit {0})

-- OnchainService.cfg and RuntimeConfig.GetOnchainConfig
abbrev pub onchain_config : Option RuntimeConfig → OnchainConfig → OnchainConfig
onchain_config none config = config
onchain_config (some rt) config = record {
  rpc_url = rt.chain_rpc_url;
  contract_address = rt.contract_address;
  private_key_hex = rt.owner_private_key;
  chain_id = rt.chain_id;
}

pub record Date : Type 0 where
  pub year : ℕ
  pub month : ℕ
  pub day : ℕ

abbrev pub day_length : ℕ
day_length = 86400 * second

-- t.Date() in UTC, from 1970 on, in the proleptic Gregorian calendar. Years are counted from March.
unfoldable pub date_of : ℕ → Date
date_of t =
    let z = t / day_length + 719468 in
    let in_era = z % 146097 in
    let y = (in_era - in_era / 1460 + in_era / 36524 - in_era / 146096) / 365 in
    let in_year = in_era - (365 * y + y / 4 - y / 100) in
    let m = (5 * in_year + 2) / 153 in
    let month = if ltb m 10 then m + 3 else m - 9 in
    record {
      year = y + z / 146097 * 400 + (if leb month 2 then 1 else 0);
      month = month;
      day = in_year - (153 * m + 2) / 5 + 1;
    }

-- uint32(y*10000 + m*100 + d)
unfoldable pub date_to_epoch_uint32 : Date → ℕ
date_to_epoch_uint32 d = (d.year * 10000 + d.month * 100 + d.day) % 2 ^ 32

abbrev pub unconfigured : OnchainConfig → Bool
unconfigured c = str_eq c.rpc_url "" || str_eq c.contract_address "" || str_eq c.private_key_hex ""

abbrev pub sent : ℕ → ℕ → Result (Unit {0}) → M (Unit {0})
sent now epoch_date (ok _) = set_epoch_published now epoch_date
sent now epoch_date (err e) = fail e

unfoldable pub publish_root : OnchainService → ℕ → ℕ → List ℕ → M (Unit {0})
unfolding date_of date_to_epoch_uint32 set_epoch_published
publish_root svc now epoch_date [] = fail internal_error
publish_root svc now epoch_date (c ∷ root) = sent now epoch_date (
    svc.send (onchain_config svc.rt_config svc.config) (date_to_epoch_uint32 (date_of epoch_date))
      (c ∷ root))

-- PublishMerkleRoot
unfoldable pub publish_merkle_root : OnchainService → ℕ → ℕ → M (Unit {0})
unfolding publish_root get_epoch_merkle_root
publish_merkle_root svc now epoch_date =
    if unconfigured (onchain_config svc.rt_config svc.config)
    then fail internal_error
    else (do root ← get_epoch_merkle_root epoch_date; publish_root svc now epoch_date root)

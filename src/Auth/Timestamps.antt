-- ===== src/Auth/Timestamps.antt =====
-- The timestamp check of WorkerAuth in internal/handler/worker_auth.go.
use subnet_benchmark.Prelude.{
  ℕ, ◌+◌, ◌-◌, ◌*◌, ◌%◌, ◌^◌, ◌≤◌, ◌<◌, min, ◌≡◌, ◌↔◌, ◌⊎◌, inl, inr, Bool, false, ◌&&◌, List, [],
  ◌∷◌, Option, none, some, arith, ltb, leb, ◌==◌, leb→le, Bool-cases, if◌then◌else◌,
}
use subnet_benchmark.Service.Config.{second}

-- A Unix time in seconds, as an int64.
pub data Stamp : Type 0 where
  after before : ℕ → Stamp

-- The number that decimal digits stand for, with what was read so far.
unfoldable pub read_digits : ℕ → List ℕ → Option ℕ
read_digits n [] = some n
read_digits n (c ∷ text) =
    let rest = read_digits (n * 10 + (c - 48)) text in if leb 48 c && leb c 57 then rest else none

abbrev pub in_range_after : Option ℕ → Option Stamp
in_range_after none = none
in_range_after (some n) = if ltb n (2 ^ 63) then some (after n) else none

abbrev pub in_range_before : Option ℕ → Option Stamp
in_range_before none = none
in_range_before (some n) = if leb n (2 ^ 63) then some (before n) else none

abbrev pub read_some : List ℕ → Option ℕ
read_some [] = none
read_some (c ∷ text) = read_digits 0 (c ∷ text)

-- strconv.ParseInt(s, 10, 64)
unfoldable pub parse_int : List ℕ → Option Stamp
unfolding read_digits
parse_int [] = none
parse_int (c ∷ text) =
    if c == 43
    then in_range_after (read_some text)
    else if c == 45
    then in_range_before (read_some text)
    else in_range_after (read_some (c ∷ text))

abbrev pub max_duration : ℕ
max_duration = 2 ^ 63 - 1

-- The seconds from the year 1 to 1970, which time.Unix adds to an int64.
abbrev pub unix_to_internal : ℕ
unix_to_internal = 62135596800

-- time.Since(time.Unix(ts, 0)): an int64 of nanoseconds, from 2 ^ 63 on negative, cut off at both ends.
-- Where time.Unix overflows, the time is before every other.
unfoldable pub since : ℕ → Stamp → ℕ
since now (before n) = min (now + n * second) max_duration
since now (after n) =
    if leb (2 ^ 63) (n + unix_to_internal)
    then max_duration
    else if leb (n * second) now
    then min (now - n * second) max_duration
    else if leb (n * second - now) (2 ^ 63)
    then 2 ^ 64 - (n * second - now)
    else 2 ^ 63

-- `if diff < 0 { diff = -diff }`: the least int64 stays negative.
abbrev pub magnitude : ℕ → ℕ
magnitude d = if ltb d (2 ^ 63) then d else (2 ^ 64 - d) % 2 ^ 64

-- diff > max_diff on int64
abbrev pub is_longer : ℕ → ℕ → Bool
is_longer diff max_diff = ltb ((max_diff + 2 ^ 63) % 2 ^ 64) ((diff + 2 ^ 63) % 2 ^ 64)

unfoldable pub expired : ℕ → ℕ → Stamp → Bool
unfolding since
expired now max_diff ts = is_longer (magnitude (since now ts)) max_diff

-- The distance of two times.
abbrev pub apart : ℕ → ℕ → ℕ
apart t u = (t - u) + (u - t)

-- What the check lets pass: a timestamp close to now, and one that is 2 ^ 63 nanoseconds ahead.
abbrev pub Passes : ℕ → ℕ → Stamp → Type 0
Passes now max_diff (before n) = now + n * second ≤ max_diff
Passes now max_diff (after n) =
    (n + unix_to_internal < 2 ^ 63)
    × ((apart now (n * second) ≤ max_diff) ⊎ (now + 2 ^ 63 ≤ n * second))

module _ (now max_diff : ℕ) (t : now < 2 ^ 63 - 1) (m : max_diff < 2 ^ 63 - 1) where
  close :
      (n : ℕ)
      → expired now max_diff (after n) ≡ false
      → (apart now (n * second) ≤ max_diff) ⊎ (now + 2 ^ 63 ≤ n * second)
  unfolding expired since
  close n h = elim (Bool-cases (leb (now + 2 ^ 63) (n * second))) [
    | inl far ↦ inr (leb→le _ _ far)
    | inr near ↦ inl (ground (arith, h, near, t, m))
  ]

  not_expired-Passes : (ts : Stamp) → expired now max_diff ts ≡ false → Passes now max_diff ts
  unfolding expired since
  not_expired-Passes (before n) h = ground (arith, h, t, m)
  not_expired-Passes (after n) h = (ground (arith, h, t, m), close n h)

  Passes-not_expired : (ts : Stamp) → Passes now max_diff ts → expired now max_diff ts ≡ false
  unfolding expired since
  Passes-not_expired (before n) h = ground (arith, h, t, m)
  Passes-not_expired (after n) (fits, inl near) = ground (arith, fits, near, t, m)
  Passes-not_expired (after n) (fits, inr far) = ground (arith, fits, far, t, m)

  -- Where now and the limit are below 2 ^ 63 - 1 nanoseconds: the check lets exactly those
  -- timestamps pass that are no further from now than the limit, and those that are 2 ^ 63
  -- nanoseconds or more ahead, unless time.Unix overflows for them.
  pub expired_lem : (ts : Stamp) → (expired now max_diff ts ≡ false) ↔ Passes now max_diff ts
  expired_lem ts = (not_expired-Passes ts, Passes-not_expired ts)

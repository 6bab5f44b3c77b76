-- ===== src/SecurityMetrics.antt =====
-- SecurityHttpMetricsBuffer of apps/api/src/security/security-http-metrics.buffer.ts: the counts of
-- refused requests per minute, before they reach the database. A `Map` is the list of its entries in
-- the order of insertion; an invalid `Date` is `none`.
pub mod Counts
mod Tests
use semcomp2026_gameficacao.Prelude.{
  ℕ, ◌+◌, ◌*◌, ◌/◌, Bool, true, false, Option, none, some, List, [], ◌∷◌, map, ◌==◌, leb,
  if◌then◌else◌,
}
use semcomp2026_gameficacao.Database.Schema.{Date}

pub record Bucket : Type 0 where
  pub minute_start : Option Date
  pub unauthorized_count : ℕ
  pub forbidden_count : ℕ
  pub rate_limited_count : ℕ

pub data CountKey : Type 0 where
  unauthorized forbidden rate_limited : CountKey

abbrev pub Buffer : Type 0
Buffer = List (ℕ × Bucket)

abbrev pub minute_in_ms : ℕ
minute_in_ms = 60000

abbrev pub get_count_key : ℕ → Option CountKey
get_count_key status_code =
    if status_code == 401
    then some unauthorized
    else if status_code == 403
    then some forbidden
    else if status_code == 429
    then some rate_limited
    else none

abbrev pub increment : CountKey → Bucket → Bucket
increment unauthorized b = record b { unauthorized_count = b.unauthorized_count + 1 }
increment forbidden b = record b { forbidden_count = b.forbidden_count + 1 }
increment rate_limited b = record b { rate_limited_count = b.rate_limited_count + 1 }

abbrev pub empty_bucket : Date → Bucket
empty_bucket minute = record {
  minute_start = some minute;
  unauthorized_count = 0;
  forbidden_count = 0;
  rate_limited_count = 0;
}

-- `get`, then a change of the bucket in place, or a `set` of a new one.
pub upsert : ℕ → (Bucket → Bucket) → Bucket → Buffer → Buffer
upsert key change new [] = (key, new) ∷ []
upsert key change new ((k, b) ∷ buffer) =
    if k == key then (k, change b) ∷ buffer else (k, b) ∷ upsert key change new buffer

abbrev pub record_key : Option CountKey → Date → Buffer → Buffer
record_key none timestamp buffer = buffer
record_key (some key) timestamp buffer =
    let minute = timestamp / minute_in_ms * minute_in_ms in
    upsert minute (increment key) (increment key (empty_bucket minute)) buffer

-- `record`
unfoldable pub record_metric : (status_code : ℕ) → Option Date → Buffer → Buffer
unfolding upsert
record_metric status_code none buffer = buffer
record_metric status_code (some timestamp) buffer =
    record_key (get_count_key status_code) timestamp buffer

-- `getTime()`; no bucket of a buffer has an invalid date.
abbrev pub get_time : Option Date → ℕ
get_time none = 0
get_time (some t) = t

abbrev pub time_of : Bucket → ℕ
time_of b = get_time b.minute_start

-- `sort` by the minute: stable.
pub insert : Bucket → List Bucket → List Bucket
insert b [] = b ∷ []
insert b (c ∷ bs) = if leb (time_of b) (time_of c) then b ∷ c ∷ bs else c ∷ insert b bs

pub sort : List Bucket → List Bucket
unfolding insert
sort [] = []
sort (b ∷ bs) = insert b (sort bs)

abbrev pub values : Buffer → List Bucket
values [] = []
values ((k, b) ∷ buffer) = b ∷ values buffer

-- Returns the buckets, and the buffer that is left.
unfoldable pub drain : Buffer → List Bucket × Buffer
unfolding sort
drain buffer = (sort (values buffer), [])

abbrev pub add_bucket : Bucket → Bucket → Bucket
add_bucket b current = record current {
  unauthorized_count = current.unauthorized_count + b.unauthorized_count;
  forbidden_count = current.forbidden_count + b.forbidden_count;
  rate_limited_count = current.rate_limited_count + b.rate_limited_count;
}

pub restore : List Bucket → Buffer → Buffer
unfolding upsert
restore [] buffer = buffer
restore (b ∷ bs) buffer = elim b.minute_start [
  | none ↦ restore bs buffer
  | some minute ↦ restore bs (upsert minute (add_bucket b) b buffer)
]

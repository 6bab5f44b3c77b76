-- ===== src/SecurityMetrics/Counts.antt =====
-- The counts that security-http-metrics.buffer.ts keeps, over all buckets of a buffer.
use semcomp2026_gameficacao.Prelude.{
  ℕ, ◌+◌, ◌*◌, ◌/◌, ◌≡◌, false, Option, none, some, List, [], ◌∷◌, ◌==◌, arith, refl, ap, ◌&&◌, ◌∙◌,
  Option-cases, if◌then◌else◌, ==→eq, Bool-cases, inl, inr,
}
use semcomp2026_gameficacao.Database.Schema.{Date}
use semcomp2026_gameficacao.SecurityMetrics.{
  Bucket, CountKey, unauthorized, forbidden, rate_limited, Buffer, get_count_key, increment,
  empty_bucket, minute_in_ms, upsert, record_key, record_metric, insert, sort, values, drain,
  add_bucket, restore,
}

abbrev pub count_of : CountKey → Bucket → ℕ
count_of unauthorized b = b.unauthorized_count
count_of forbidden b = b.forbidden_count
count_of rate_limited b = b.rate_limited_count

-- The count of one kind at one minute, over all buckets.
abbrev pub counted : CountKey → ℕ → List Bucket → ℕ
counted key minute [] = 0
counted key minute (b ∷ bs) =
    (elim b.minute_start [ none ↦ 0 | some m ↦ if m == minute then count_of key b else 0 ])
    + counted key minute bs

-- Every bucket is filed under its own minute.
pub data IsFiled : Buffer → Type 0 where
  no_buckets : IsFiled []
  filed :
      {k : ℕ} {b : Bucket} {buffer : Buffer}
      → b.minute_start ≡ some k
      → IsFiled buffer
      → IsFiled ((k, b) ∷ buffer)

insert-counted :
    (key : CountKey) (minute : ℕ) (b : Bucket) (bs : List Bucket)
    → counted key minute (insert b bs) ≡ counted key minute (b ∷ bs)
unfolding insert
insert-counted key minute b [] = refl
insert-counted key minute b (c ∷ bs) = ground (arith, insert-counted key minute b bs)

sort-counted :
    (key : CountKey) (minute : ℕ) (bs : List Bucket)
    → counted key minute (sort bs) ≡ counted key minute bs
unfolding sort
sort-counted key minute [] = refl
sort-counted key minute (b ∷ bs) =
    ground (arith, insert-counted key minute b (sort bs), sort-counted key minute bs)

increment_start :
    (k : CountKey) (start : ℕ) → (increment k (empty_bucket start)).minute_start ≡ some start
increment_start unauthorized start = refl
increment_start forbidden start = refl
increment_start rate_limited start = refl

-- What `change` does to a bucket of minute k when it adds the counts of `new`.
abbrev Adds : ℕ → (Bucket → Bucket) → Bucket → Type 0
Adds k change new =
    (key : CountKey) (c : Bucket)
    → ((change c).minute_start ≡ c.minute_start)
      × (count_of key (change c) ≡ count_of key c + count_of key new)

upsert-IsFiled :
    (k : ℕ) (change : Bucket → Bucket) (new : Bucket) (buffer : Buffer)
    → IsFiled buffer
    → Adds k change new
    → new.minute_start ≡ some k
    → IsFiled (upsert k change new buffer)
unfolding upsert
upsert-IsFiled k change new [] no_buckets adds at_k = filed at_k no_buckets
upsert-IsFiled k change new ((j, c) ∷ buffer) (filed at_j h) adds at_k =
    elim (Bool-cases (j == k)) [
      | inl same ↦ rw same (filed ((adds unauthorized c).0 ∙ at_j) h)
      | inr other ↦ rw other (filed at_j (upsert-IsFiled k change new buffer h adds at_k))
    ]

upsert-counted :
    (key : CountKey) (minute k : ℕ) (change : Bucket → Bucket) (new : Bucket) (buffer : Buffer)
    → IsFiled buffer
    → Adds k change new
    → new.minute_start ≡ some k
    → counted key minute (values (upsert k change new buffer))
      ≡ counted key minute (values buffer) + counted key minute (new ∷ [])
unfolding upsert
upsert-counted key minute k change new [] no_buckets adds at_k = omega arith
upsert-counted key minute k change new ((j, c) ∷ buffer) (filed at_j h) adds at_k =
    let rest = upsert-counted key minute k change new buffer h adds at_k in
    let (same_minute, more) = adds key c in
    ground (arith, at_j, at_k, rest, same_minute, more, ==→eq j k, ==→eq j minute, ==→eq k minute)

increment-Adds :
    (key : CountKey) (minute : ℕ)
    → Adds minute (increment key) (increment key (empty_bucket minute))
increment-Adds unauthorized minute unauthorized c = (refl, omega arith)
increment-Adds unauthorized minute forbidden c = (refl, omega arith)
increment-Adds unauthorized minute rate_limited c = (refl, omega arith)
increment-Adds forbidden minute unauthorized c = (refl, omega arith)
increment-Adds forbidden minute forbidden c = (refl, omega arith)
increment-Adds forbidden minute rate_limited c = (refl, omega arith)
increment-Adds rate_limited minute unauthorized c = (refl, omega arith)
increment-Adds rate_limited minute forbidden c = (refl, omega arith)
increment-Adds rate_limited minute rate_limited c = (refl, omega arith)

add_bucket-Adds : (b : Bucket) (k : ℕ) → Adds k (add_bucket b) b
add_bucket-Adds b k unauthorized c = (refl, refl)
add_bucket-Adds b k forbidden c = (refl, refl)
add_bucket-Adds b k rate_limited c = (refl, refl)

counted-restore :
    (key : CountKey) (minute : ℕ) (bs : List Bucket) (buffer : Buffer)
    → IsFiled buffer
    → counted key minute (values (restore bs buffer))
      ≡ counted key minute (values buffer) + counted key minute bs
unfolding restore
counted-restore key minute [] buffer h = omega arith
counted-restore key minute (b ∷ bs) buffer h = elim (Option-cases b.minute_start) [
  | inl invalid ↦ let rest = counted-restore key minute bs buffer h in ground (arith, invalid, rest)
  | inr (m, valid) ↦
      let next = upsert m (add_bucket b) b buffer in
      let adds = add_bucket-Adds b m in
      let here = upsert-counted key minute m (add_bucket b) b buffer h adds valid in
      let rest =
        counted-restore key minute bs next
          (upsert-IsFiled m (add_bucket b) b buffer h adds valid) in
      ground (arith, valid, here, rest)
]

-- If what was drained is put back into the buffer, whatever requests were counted in between, then
-- at every minute each count is the sum of what was drained and what was counted since.
pub drain-restore :
    (key : CountKey) (minute : ℕ) (before since : Buffer)
    → IsFiled since
    → counted key minute (values (restore (drain before).0 since))
      ≡ counted key minute (values before) + counted key minute (values since)
unfolding drain
drain-restore key minute before since h =
    let put_back = counted-restore key minute (sort (values before)) since h in
    let kept = sort-counted key minute (values before) in omega (arith, put_back, kept)

abbrev pub status_of : CountKey → ℕ
status_of unauthorized = 401
status_of forbidden = 403
status_of rate_limited = 429

new-counted :
    (key k : CountKey) (minute status start : ℕ)
    → get_count_key status ≡ some k
    → counted key minute (increment k (empty_bucket start) ∷ [])
      ≡ (if status == status_of key && start == minute then 1 else 0)
new-counted key unauthorized minute status start h = ground arith
new-counted key forbidden minute status start h = ground arith
new-counted key rate_limited minute status start h = ground arith

not_counted :
    (key : CountKey) (minute status start : ℕ)
    → get_count_key status ≡ none
    → (status == status_of key && start == minute) ≡ false
not_counted unauthorized minute status start h = ground arith
not_counted forbidden minute status start h = ground arith
not_counted rate_limited minute status start h = ground arith

-- Recording a status at a time adds one to the count of its kind at the start of its minute when the
-- status is 401, 403 or 429, and changes no other count, in a buffer whose buckets are filed under
-- their own minutes.
pub record_metric-counted :
    (key : CountKey) (minute status time : ℕ) (buffer : Buffer)
    → IsFiled buffer
    → counted key minute (values (record_metric status (some time) buffer))
      ≡ counted key minute (values buffer)
        + (if status == status_of key && time / minute_in_ms * minute_in_ms == minute then 1 else 0)
unfolding record_metric
record_metric-counted key minute status time buffer h =
    let start = time / minute_in_ms * minute_in_ms in
    elim (Option-cases (get_count_key status)) [
      | inl other ↦
          rw other (
            ground
              (arith, not_counted key minute status (time / minute_in_ms * minute_in_ms) other))
      | inr (k, refused) ↦
          let new = increment k (empty_bucket start) in
          let one = new-counted key k minute status start refused in
          rw refused (
            upsert-counted key minute start (increment k) new buffer h (increment-Adds k start)
              (increment_start k start)
            ∙ ap (λ n. counted key minute (values buffer) + n) one)
    ]

-- Recording keeps every bucket filed under its own minute.
pub record_metric-IsFiled :
    (status : ℕ) (time : Option Date) (buffer : Buffer)
    → IsFiled buffer
    → IsFiled (record_metric status time buffer)
unfolding record_metric
record_metric-IsFiled status none buffer h = h
record_metric-IsFiled status (some time) buffer h = of (get_count_key status)
  where
    of : (key : Option CountKey) → IsFiled (record_key key time buffer)
    of none = h
    of (some k) =
        let start = time / minute_in_ms * minute_in_ms in
        upsert-IsFiled start (increment k) (increment k (empty_bucket start)) buffer h
          (increment-Adds k start) (increment_start k start)

-- ===== src/SecurityMetrics/Tests.antt =====
-- Two refused requests, and a drain that is put back.
use semcomp2026_gameficacao.Prelude.{
  ◌+◌, ◌≡◌, refl, [], ◌∷◌, some, if◌then◌else◌, ◌&&◌, ◌*◌, ◌/◌, ◌==◌,
}
use semcomp2026_gameficacao.SecurityMetrics.{
  Buffer, forbidden, record_metric, drain, restore, values, minute_in_ms, empty_bucket,
}
use semcomp2026_gameficacao.SecurityMetrics.Counts.{
  IsFiled, no_buckets, filed, counted, status_of, drain-restore, record_metric-counted,
}

abbrev one_forbidden : Buffer
one_forbidden = (60000, record (empty_bucket 60000) { forbidden_count = 1 }) ∷ []

one_forbidden-IsFiled : IsFiled one_forbidden
one_forbidden-IsFiled = filed refl no_buckets

drain-restore_example :
    counted forbidden 60000 (values (restore (drain one_forbidden).0 one_forbidden))
    ≡ counted forbidden 60000 (values one_forbidden)
      + counted forbidden 60000 (values one_forbidden)
drain-restore_example =
    drain-restore forbidden 60000 one_forbidden one_forbidden one_forbidden-IsFiled

record_metric-counted_example :
    counted forbidden 60000 (values (record_metric 403 (some 61500) one_forbidden))
    ≡ counted forbidden 60000 (values one_forbidden)
      + (if 403 == status_of forbidden && 61500 / minute_in_ms * minute_in_ms == 60000
          then 1
          else 0)
record_metric-counted_example =
    record_metric-counted forbidden 60000 403 61500 one_forbidden one_forbidden-IsFiled

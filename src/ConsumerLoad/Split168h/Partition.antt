-- ===== src/ConsumerLoad/Split168h/Partition.antt =====
-- What ml/consumer_load/lag_24h_168h_chronological_split.py returns, and that it accepts every
-- output of the feature builder.
use armenian_energy_trading.Base.{
  ◌<◌, ◌≤◌, ◌≡◌, ◌≢◌, refl, List, [], ◌∷◌, ◌++◌, map, ltb, leb, keep, true, All, arith,
  text_comparable,
}
use armenian_energy_trading.Domain.{ConsumptionRecord}
use armenian_energy_trading.Ml.Errors.{ok, >>-eq-ok}
use armenian_energy_trading.Ml.Cohort.{Timestamp}
use armenian_energy_trading.Ml.Cohort.Laws.{
  chronology-ok, require_single-ok, AllSame-require_single, Increasing-chronology,
}
use armenian_energy_trading.Ml.Cohort.Partition.{keep-append-keep, keep-All}
use armenian_energy_trading.ConsumerLoad.Features168h.{
  ConsumerLoadLag24h168hFeatureRow, build_feature_rows,
}
use armenian_energy_trading.ConsumerLoad.Features168h.Exact.{
  IsCohort, IsCohort-keep, build_feature_rows-IsCohort,
}
use armenian_energy_trading.ConsumerLoad.Split168h.{
  ConsumerLoadLag24h168hChronologicalFeatureSplit, require_single_consumer, require_chronology,
  partitions, split_chronologically,
}

module _ {F : Type 0} where
  abbrev pub training :
      Timestamp
      → List (ConsumerLoadLag24h168hFeatureRow F)
      → List (ConsumerLoadLag24h168hFeatureRow F)
  training cutoff rows = keep (λ row. ltb row.target_timestamp cutoff) rows

  abbrev pub evaluation :
      Timestamp
      → List (ConsumerLoadLag24h168hFeatureRow F)
      → List (ConsumerLoadLag24h168hFeatureRow F)
  evaluation cutoff rows = keep (λ row. leb cutoff row.target_timestamp) rows

  partitions-ok :
      (ts es : List (ConsumerLoadLag24h168hFeatureRow F))
      {s : ConsumerLoadLag24h168hChronologicalFeatureSplit F}
      → partitions ts es ≡ ok s
      → (s.training_rows ≡ ts) × (s.evaluation_rows ≡ es)
  unfolding partitions
  partitions-ok [] es h = cc
  partitions-ok (t ∷ ts) [] h = cc
  partitions-ok (t ∷ ts) (e ∷ es) h = ground arith

  split-guards :
      (rows : List (ConsumerLoadLag24h168hFeatureRow F)) (cutoff : Timestamp)
      {s : ConsumerLoadLag24h168hChronologicalFeatureSplit F}
      → split_chronologically rows cutoff ≡ ok s
      → IsCohort rows × (partitions (training cutoff rows) (evaluation cutoff rows) ≡ ok s)
  unfolding split_chronologically require_single_consumer require_chronology
  split-guards [] cutoff h = cc
  split-guards (r ∷ rs) cutoff h =
      let (consumers, h1) = >>-eq-ok _ _ h in
      let (chronology, h3) = >>-eq-ok _ _ h1 in
      (
        record {
          one_consumer = require_single-ok _ (map (λ x. x.consumer_id) (r ∷ rs)) consumers;
          chronological = chronology-ok _ _ (map (λ x. x.target_timestamp) (r ∷ rs)) chronology;
        },
        h3,
      )

  All-before :
      (cutoff : Timestamp) (rows : List (ConsumerLoadLag24h168hFeatureRow F))
      → All (λ row. ltb row.target_timestamp cutoff ≡ true) rows
      → All (λ row. row.target_timestamp < cutoff) rows
  All-before cutoff [] h = tt
  All-before cutoff (r ∷ rs) h = (ground arith, All-before cutoff rs h.1)

  All-after :
      (cutoff : Timestamp) (rows : List (ConsumerLoadLag24h168hFeatureRow F))
      → All (λ row. leb cutoff row.target_timestamp ≡ true) rows
      → All (λ row. cutoff ≤ row.target_timestamp) rows
  All-after cutoff [] h = tt
  All-after cutoff (r ∷ rs) h = (ground arith, All-after cutoff rs h.1)

  -- A split that is returned cuts the rows in two: the training rows followed by the evaluation rows
  -- are the rows, each training row is before the cutoff and each evaluation row at or after it.
  pub split_chronologically-cuts :
      (rows : List (ConsumerLoadLag24h168hFeatureRow F)) (cutoff : Timestamp)
      {s : ConsumerLoadLag24h168hChronologicalFeatureSplit F}
      → split_chronologically rows cutoff ≡ ok s
      → (s.training_rows ++ s.evaluation_rows ≡ rows)
        × All (λ row. row.target_timestamp < cutoff) s.training_rows
        × All (λ row. cutoff ≤ row.target_timestamp) s.evaluation_rows
  split_chronologically-cuts rows cutoff h =
      let (cohort, cut) = split-guards rows cutoff h in
      let (ts, es) = partitions-ok (training cutoff rows) (evaluation cutoff rows) cut in
      rw (ts, es)
        (
          keep-append-keep (λ r. r.target_timestamp) cutoff rows cohort.chronological,
          All-before cutoff (training cutoff rows)
              (keep-All (λ row. ltb row.target_timestamp cutoff) rows),
          All-after cutoff (evaluation cutoff rows)
              (keep-All (λ row. leb cutoff row.target_timestamp) rows),
        )

  pub IsCohort-split :
      (r : ConsumerLoadLag24h168hFeatureRow F) (rs : List (ConsumerLoadLag24h168hFeatureRow F))
      (cutoff : Timestamp)
      → IsCohort (r ∷ rs)
      → split_chronologically (r ∷ rs) cutoff
        ≡ partitions (training cutoff (r ∷ rs)) (evaluation cutoff (r ∷ rs))
  unfolding split_chronologically require_single_consumer require_chronology
  IsCohort-split r rs cutoff cohort =
      rw
        (
          AllSame-require_single _ (map (λ x. x.consumer_id) (r ∷ rs)) cohort.one_consumer,
          Increasing-chronology _ _ r.target_timestamp (map (λ x. x.target_timestamp) rs)
              cohort.chronological,
        )
        refl

  -- On rows that the feature builder has made no guard of the splitter fires: what it does is decided
  -- by the two partitions alone.
  pub split-built :
      (history : List (ConsumptionRecord F)) (cutoff : Timestamp)
      {r : ConsumerLoadLag24h168hFeatureRow F} {rs : List (ConsumerLoadLag24h168hFeatureRow F)}
      → build_feature_rows history ≡ ok (r ∷ rs)
      → split_chronologically (r ∷ rs) cutoff
        ≡ partitions (training cutoff (r ∷ rs)) (evaluation cutoff (r ∷ rs))
  split-built history cutoff {r} {rs} h =
      IsCohort-split r rs cutoff (build_feature_rows-IsCohort history h)

  -- Both partitions of a split are cohorts again.
  pub split_chronologically-IsCohort :
      (rows : List (ConsumerLoadLag24h168hFeatureRow F)) (cutoff : Timestamp)
      {s : ConsumerLoadLag24h168hChronologicalFeatureSplit F}
      → split_chronologically rows cutoff ≡ ok s
      → IsCohort s.training_rows × IsCohort s.evaluation_rows
  split_chronologically-IsCohort rows cutoff h =
      let (cohort, cut) = split-guards rows cutoff h in
      let (ts, es) = partitions-ok (training cutoff rows) (evaluation cutoff rows) cut in
      rw (ts, es) (IsCohort-keep _ rows cohort, IsCohort-keep _ rows cohort)

  partitions-nonempty :
      (ts es : List (ConsumerLoadLag24h168hFeatureRow F))
      {s : ConsumerLoadLag24h168hChronologicalFeatureSplit F}
      → partitions ts es ≡ ok s
      → (s.training_rows ≢ []) × (s.evaluation_rows ≢ [])
  unfolding partitions
  partitions-nonempty [] es h = cc
  partitions-nonempty (t ∷ ts) [] h = cc
  partitions-nonempty (t ∷ ts) (e ∷ es) h = ground arith

  pub split_chronologically-nonempty :
      (rows : List (ConsumerLoadLag24h168hFeatureRow F)) (cutoff : Timestamp)
      {s : ConsumerLoadLag24h168hChronologicalFeatureSplit F}
      → split_chronologically rows cutoff ≡ ok s
      → (s.training_rows ≢ []) × (s.evaluation_rows ≢ [])
  split_chronologically-nonempty rows cutoff h =
      partitions-nonempty (training cutoff rows) (evaluation cutoff rows)
        (split-guards rows cutoff h).1

-- ===== src/Web/Metrics/Totals.antt =====
-- The figures of a network's bucket in the live usage of argus/web/metrics.py.
use bitcoin_argus.Common.{
  ℕ, ◌+◌, ◌≡◌, refl, ap, ◌∙◌, Option, some, List, [], ◌∷◌, arith, if◌then◌else◌,
}
use bitcoin_argus.Common.Float.{Float}
use bitcoin_argus.Web.Metrics.{Text}
use bitcoin_argus.Web.Metrics.Collect.{
  Spot, Stats, Sample, Usage, per_container_samples, no_usage, with_sample, add_samples, with_disk,
  add_volumes, Df, collect_usage,
}
use bitcoin_argus.Web.Metrics.Sums.{
  usage_of, sum_at, sizes_at, usage_of-empty, add_samples-figure, add_layers-figure,
  add_volumes-figure,
}

module _ {fl : Float} (figure : Usage fl → ℕ) (spot : Spot) where
  collect_usage-figure :
      (of_sample : Sample fl → ℕ) (of_size : ℕ → ℕ)
      → ((s : Sample fl) (u : Usage fl) → figure (with_sample s u) ≡ figure u + of_sample s)
      → ((n : ℕ) (u : Usage fl) → figure (with_disk n u) ≡ figure u + of_size n)
      → of_size 0 ≡ 0
      → figure no_usage ≡ 0
      → (lower : Text → Text) (read : Text → Option Stats) (names : List Text) (d : Df)
      → figure (usage_of spot (collect_usage lower read (some names) (some d)).0)
        ≡ sum_at of_sample spot (per_container_samples lower read names)
          + sizes_at lower of_size spot d.volumes
          + sizes_at lower of_size spot d.layers
  unfolding collect_usage
  collect_usage-figure of_sample of_size sample_law size_law free start lower read names d =
      let samples : List (Sample fl) = per_container_samples lower read names in
      let live = add_samples samples [] in
      let zero : figure (usage_of spot []) ≡ 0 = ap figure (usage_of-empty spot) ∙ start in
      let first = add_samples-figure figure spot of_sample sample_law samples [] in
      let second = add_volumes-figure figure spot of_size size_law free lower d.volumes live in
      let third =
        add_layers-figure figure spot of_size size_law lower d.layers
          (add_volumes lower d.volumes live) in
      omega (arith, zero, first, second, third)

no_sample : {fl : Float} (spot : Spot) (ss : List (Sample fl)) → sum_at (λ s. 0) spot ss ≡ 0
unfolding sum_at
no_sample spot [] = refl
no_sample spot (s ∷ ss) = ground (arith, no_sample spot ss)

nothing_at :
    (lower : Text → Text) (spot : Spot) (rows : List (Text × Option ℕ))
    → sizes_at lower (λ n. 0) spot rows ≡ 0
unfolding sizes_at
nothing_at lower spot [] = refl
nothing_at lower spot ((name, size) ∷ rows) = ground (arith, nothing_at lower spot rows)

-- If the containers are listed and the sizes are read, the memory and the traffic of a network's bucket
-- are the sums over the samples that are attributed to it, without the traffic of those that report
-- none, and its disk is the sum of the sizes of the volumes and of the layers that are.
pub collect_usage-totals :
    (fl : Float) (lower : Text → Text) (read : Text → Option Stats) (names : List Text) (d : Df)
    (spot : Spot)
    → ((usage_of {fl = fl} spot (collect_usage lower read (some names) (some d)).0).ram
        ≡ sum_at {fl = fl} (λ s. s.ram) spot (per_container_samples lower read names))
      × ((usage_of {fl = fl} spot (collect_usage lower read (some names) (some d)).0).net_rx
          ≡ sum_at {fl = fl}
              (λ s. if s.has_net then s.rx else 0)
              spot
              (per_container_samples lower read names))
      × ((usage_of {fl = fl} spot (collect_usage lower read (some names) (some d)).0).net_tx
          ≡ sum_at {fl = fl}
              (λ s. if s.has_net then s.tx else 0)
              spot
              (per_container_samples lower read names))
      × ((usage_of {fl = fl} spot (collect_usage lower read (some names) (some d)).0).disk
          ≡ sizes_at lower (λ n. n) spot d.volumes + sizes_at lower (λ n. n) spot d.layers)
unfolding with_sample with_disk no_usage
collect_usage-totals fl lower read names d spot =
    let volumes = nothing_at lower spot d.volumes in
    let layers = nothing_at lower spot d.layers in
    let samples : List (Sample fl) = per_container_samples lower read names in
    let ram =
      collect_usage-figure {fl = fl} (λ u. u.ram) spot (λ s. s.ram) (λ n. 0) (λ s u. refl)
        (λ n u. omega arith) refl refl lower read names d in
    let rx =
      collect_usage-figure {fl = fl} (λ u. u.net_rx) spot (λ s. if s.has_net then s.rx else 0)
        (λ n. 0) (λ s u. ground arith) (λ n u. omega arith) refl refl lower read names d in
    let tx =
      collect_usage-figure {fl = fl} (λ u. u.net_tx) spot (λ s. if s.has_net then s.tx else 0)
        (λ n. 0) (λ s u. ground arith) (λ n u. omega arith) refl refl lower read names d in
    let disk =
      collect_usage-figure {fl = fl} (λ u. u.disk) spot (λ s. 0) (λ n. n) (λ s u. omega arith)
        (λ n u. refl) refl refl lower read names d in
    (
      omega (arith, ram, volumes, layers),
      omega (arith, rx, volumes, layers),
      omega (arith, tx, volumes, layers),
      omega (arith, disk, no_sample spot samples),
    )

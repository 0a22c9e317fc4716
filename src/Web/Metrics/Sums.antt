-- ===== src/Web/Metrics/Sums.antt =====
-- What the entries of the usage in argus/web/metrics.py add up to.
use bitcoin_argus.Common.{
  ℕ, ◌+◌, ◌≡◌, refl, ap, ◌∙◌, true, false, Option, none, some, or_else, List, [], ◌∷◌, arith, ltb,
  if◌then◌else◌, codes_eq→eq, codes_eq_sym, inl, inr, Bool-cases, Option-cases,
}
use bitcoin_argus.Common.Float.{Float}
use bitcoin_argus.Common.Table.{find?}
use bitcoin_argus.Web.Metrics.{Text, classify}
use bitcoin_argus.Web.Metrics.Collect.{
  Spot, same_spot, Sample, Usage, Table, no_usage, add_to, with_sample, add_samples, with_disk,
  add_volumes, add_layers,
}

same_spot→eq : (a b : Spot) → same_spot a b ≡ true → a ≡ b
same_spot→eq a b h =
    let first : a.0 ≡ b.0 = codes_eq→eq a.0 b.0 (ground arith) in
    let last : a.1 ≡ b.1 = codes_eq→eq a.1 b.1 (ground arith) in
    ap (λ x. (x, a.1)) first ∙ ap (λ y. (b.0, y)) last

same_spot_sym : (a b : Spot) → same_spot a b ≡ same_spot b a
same_spot_sym a b = rw (codes_eq_sym a.0 b.0, codes_eq_sym a.1 b.1) refl

module _ {fl : Float} where
  -- The entry of a spot.
  unfoldable pub usage_of : Spot → Table fl → Usage fl
  usage_of spot usage = elim (find? (λ e. same_spot spot e.0) usage) [
    | none ↦ no_usage
    | some e ↦ e.1
  ]

  -- What a list of samples has for a spot.
  unfoldable pub sum_at : (Sample fl → ℕ) → Spot → List (Sample fl) → ℕ
  sum_at figure spot [] = 0
  sum_at figure spot (s ∷ ss) =
      if same_spot spot s.spot then figure s + sum_at figure spot ss else sum_at figure spot ss

  usage_of-cons :
      (spot : Spot) (e : Spot × Usage fl) (usage : Table fl)
      → usage_of spot (e ∷ usage) ≡ (if same_spot spot e.0 then e.1 else usage_of spot usage)
  unfolding usage_of
  usage_of-cons spot e usage = ground arith

  pub usage_of-empty : (spot : Spot) → usage_of spot [] ≡ no_usage
  unfolding usage_of
  usage_of-empty spot = refl

  add_to-empty : (key : Spot) (f : Usage fl → Usage fl) → add_to key f [] ≡ (key, f no_usage) ∷ []
  unfolding add_to
  add_to-empty key f = refl

  add_to-cons :
      (key : Spot) (f : Usage fl → Usage fl) (e : Spot × Usage fl) (usage : Table fl)
      → add_to key f (e ∷ usage)
        ≡ (if same_spot key e.0 then (e.0, f e.1) ∷ usage else e ∷ add_to key f usage)
  unfolding add_to
  add_to-cons key f e usage = refl

  -- A write of a spot is read there and nowhere else.
  usage_of-add_to :
      (spot key : Spot) (f : Usage fl → Usage fl) (usage : Table fl)
      → usage_of spot (add_to key f usage)
        ≡ (if same_spot spot key then f (usage_of spot usage) else usage_of spot usage)
  usage_of-add_to spot key f [] =
      rw (add_to-empty key f, usage_of-cons spot (key, f no_usage) [], usage_of-empty spot) refl
  usage_of-add_to spot key f (e ∷ usage) = elim (Bool-cases (same_spot key e.0)) [
    | inl t ↦
        let same : key ≡ e.0 = same_spot→eq key e.0 t in
        rw
          (
            add_to-cons key f e usage,
            t,
            usage_of-cons spot (e.0, f e.1) usage,
            usage_of-cons spot e usage,
            same,
          )
          (elim (Bool-cases (same_spot spot e.0)) [ inl u ↦ rw u refl | inr u ↦ rw u refl ])
    | inr t ↦
        rw
          (
            add_to-cons key f e usage,
            t,
            usage_of-cons spot e (add_to key f usage),
            usage_of-cons spot e usage,
          )
          (elim (Bool-cases (same_spot spot e.0)) [
            | inl u ↦
                let same : spot ≡ e.0 = same_spot→eq spot e.0 u in
                let other : same_spot spot key ≡ false =
                  ap (λ a. same_spot a key) same ∙ (same_spot_sym e.0 key ∙ t) in
                rw (u, other) refl
            | inr u ↦ rw u (usage_of-add_to spot key f usage)
          ])
  ]

-- What the sizes of a list come to for a spot.
unfoldable pub sizes_at : (Text → Text) → (ℕ → ℕ) → Spot → List (Text × Option ℕ) → ℕ
sizes_at lower part spot [] = 0
sizes_at lower part spot ((name, size) ∷ rows) = elim (classify lower name) [
  | none ↦ sizes_at lower part spot rows
  | some key ↦
      if same_spot spot key
      then part (or_else size 0) + sizes_at lower part spot rows
      else sizes_at lower part spot rows
]

-- A figure of an entry that a sample, or a size, adds to.
module _ {fl : Float} (figure : Usage fl → ℕ) (spot : Spot) where
  pub add_samples-figure :
      (part : Sample fl → ℕ)
      → ((s : Sample fl) (u : Usage fl) → figure (with_sample s u) ≡ figure u + part s)
      → (ss : List (Sample fl)) (usage : Table fl)
      → figure (usage_of spot (add_samples ss usage))
        ≡ figure (usage_of spot usage) + sum_at part spot ss
  unfolding add_samples sum_at
  add_samples-figure part law [] usage = omega arith
  add_samples-figure part law (s ∷ ss) usage =
      let rest = add_samples-figure part law ss (add_to s.spot (with_sample s) usage) in
      let here = ap figure (usage_of-add_to spot s.spot (with_sample s) usage) in
      elim (Bool-cases (same_spot spot s.spot)) [
        | inl e ↦
            let step : figure (usage_of spot (add_to s.spot (with_sample s) usage))
                ≡ figure (usage_of spot usage) + part s =
              here ∙ rw (e) (law s (usage_of spot usage)) in
            rw (e) (omega (arith, rest, step))
        | inr e ↦
            let step : figure (usage_of spot (add_to s.spot (with_sample s) usage))
                ≡ figure (usage_of spot usage) =
              here ∙ rw (e) refl in
            rw (e) (omega (arith, rest, step))
      ]

  module _ (part : ℕ → ℕ)
      (law : (n : ℕ) (u : Usage fl) → figure (with_disk n u) ≡ figure u + part n) where
    add_size :
        (key : Spot) (n : ℕ) (usage : Table fl)
        → figure (usage_of spot (add_to key (with_disk n) usage))
          ≡ figure (usage_of spot usage) + (if same_spot spot key then part n else 0)
    add_size key n usage =
        ap figure (usage_of-add_to spot key (with_disk n) usage)
        ∙ elim (Bool-cases (same_spot spot key)) [
          | inl e ↦ rw (e) (law n (usage_of spot usage))
          | inr e ↦ rw (e) (omega arith)
        ]

    pub add_layers-figure :
        (lower : Text → Text) (rows : List (Text × Option ℕ)) (usage : Table fl)
        → figure (usage_of spot (add_layers lower rows usage))
          ≡ figure (usage_of spot usage) + sizes_at lower part spot rows
    unfolding add_layers sizes_at
    add_layers-figure lower [] usage = omega arith
    add_layers-figure lower ((name, size) ∷ rows) usage =
        elim (Option-cases (classify lower name)) [
          | inl n ↦ ground (arith, add_layers-figure lower rows usage)
          | inr (key, n) ↦
              let here = add_size key (or_else size 0) usage in
              ground (
                arith,
                here,
                add_layers-figure lower rows (add_to key (with_disk (or_else size 0)) usage),
              )
        ]

    pub add_volumes-figure :
        part 0 ≡ 0
        → (lower : Text → Text) (rows : List (Text × Option ℕ)) (usage : Table fl)
        → figure (usage_of spot (add_volumes lower rows usage))
          ≡ figure (usage_of spot usage) + sizes_at lower part spot rows
    unfolding add_volumes sizes_at
    add_volumes-figure free lower [] usage = omega arith
    add_volumes-figure free lower ((name, size) ∷ rows) usage =
        elim (Option-cases (classify lower name)) [
          | inl n ↦ ground (arith, add_volumes-figure free lower rows usage)
          | inr (key, n) ↦ elim (Bool-cases (ltb 0 (or_else size 0))) [
            | inl e ↦
                let here = add_size key (or_else size 0) usage in
                ground (
                  arith,
                  here,
                  add_volumes-figure free lower rows
                      (add_to key (with_disk (or_else size 0)) usage),
                )
            | inr e ↦
                let none_left : or_else size 0 ≡ 0 = ground arith in
                let no_part : part (or_else size 0) ≡ 0 = ap part none_left ∙ free in
                ground (arith, no_part, add_volumes-figure free lower rows usage)
          ]
        ]

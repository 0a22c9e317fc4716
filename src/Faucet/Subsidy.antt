-- ===== src/Faucet/Subsidy.antt =====
-- The block subsidy of argus/faucet/difficulty.py, and its cache. The height that the mempool API
-- reports is an argument, `none` where it cannot be read.
use native.Mathlib.Nat.{pow-suc, div-div-eq-div-mul}
use bitcoin_argus.Common.{
  ℕ, suc, ◌+◌, ◌*◌, ◌/◌, ◌^◌, ◌≤◌, ◌<◌, String, ◌≡◌, ◌↔◌, sym, inl, inr, Bool, false, Option, none,
  some, List, arith, leb, ltb, if◌then◌else◌, str_eq, Bool-cases,
}
use bitcoin_argus.Common.Table.{find?, upsert}
use bitcoin_argus.Faucet.Clock.{second}

abbrev pub initial_subsidy_sat : ℕ
initial_subsidy_sat = 5_000_000_000

abbrev pub halving_interval : ℕ
halving_interval = 210_000

-- `>> halvings` is a division by a power of two.
unfoldable pub subsidy_for_height : ℕ → ℕ
subsidy_for_height height =
    let halvings = height / halving_interval in
    if leb 64 halvings then 0 else initial_subsidy_sat / 2 ^ halvings

pub record Cached : Type 0 where
  pub net : String
  pub fetched_at : ℕ
  pub subsidy : ℕ

abbrev pub cache_key : String → Cached → Bool
cache_key net r = str_eq r.net net

-- `_CACHE_TTL`, in ticks.
abbrev pub cache_ttl : ℕ
cache_ttl = 600 * second

-- The value of a stale or missing entry once the height was asked for.
unfoldable pub refreshed :
    String → ℕ → Option Cached → Option ℕ → List Cached → Option ℕ × List Cached
refreshed net now none none cache = (none, cache)
refreshed net now (some c) none cache = (some c.subsidy, cache)
refreshed net now cached (some height) cache =
    let subsidy = subsidy_for_height height in
    let new : Cached = record { net = net; fetched_at = now; subsidy = subsidy } in
    (some subsidy, upsert (cache_key net) (λ r. new) new cache)

unfoldable pub block_subsidy_sat : String → ℕ → Option ℕ → List Cached → Option ℕ × List Cached
unfolding refreshed
block_subsidy_sat net now height cache = elim (find? (cache_key net) cache) [
  | none ↦ refreshed net now none height cache
  | some c ↦
      if ltb now (c.fetched_at + cache_ttl)
      then (some c.subsidy, cache)
      else refreshed net now (some c) height cache
]

-- The subsidy of a height 210,000 blocks on is half, rounded down; the first era pays 50 BTC, all
-- heights of an era pay the same, and from the 64th halving on nothing is paid.
pub subsidy_for_height_halves :
    (h k : ℕ)
    → (subsidy_for_height (h + halving_interval) ≡ subsidy_for_height h / 2)
      × (h < halving_interval → subsidy_for_height h ≡ 5_000_000_000)
      × (h / halving_interval ≡ k / halving_interval → subsidy_for_height h ≡ subsidy_for_height k)
      × (64 * halving_interval ≤ h → subsidy_for_height h ≡ 0)
unfolding subsidy_for_height
subsidy_for_height_halves h k = (
  halve (h / halving_interval) ((h + halving_interval) / halving_interval) (omega arith),
  (λ l. let e : h / halving_interval ≡ 0 = omega arith in rw e),
  (λ e. rw e),
  λ l. ground arith,
)
  where
    halve :
        (a b : ℕ)
        → b ≡ suc a
        → (if leb 64 b then 0 else initial_subsidy_sat / 2 ^ b)
          ≡ (if leb 64 a then 0 else initial_subsidy_sat / 2 ^ a) / 2
    halve a b e = elim (Bool-cases (leb 63 a)) [
      | inl late ↦ elim (Bool-cases (leb 64 a)) [
        | inl past ↦ ground arith
        | inr last ↦ let f : a ≡ 63 = ground arith in rw (e, f)
      ]
      | inr early ↦
          let p : leb 64 b ≡ false = ground arith in
          let q : leb 64 a ≡ false = ground arith in
          rw (p, q, e, pow-suc 2 a) (sym (div-div-eq-div-mul initial_subsidy_sat (2 ^ a) 2))
    ]

-- A network whose subsidy was ever learned always has one: no later failure to read the height
-- takes it away. Without a fetched height and a cached value there is none.
pub block_subsidy_sat-none_iff :
    (net : String) (now : ℕ) (height : Option ℕ) (cache : List Cached)
    → ((block_subsidy_sat net now height cache).0 ≡ none)
      ↔ ((find? (cache_key net) cache ≡ none) × (height ≡ none))
unfolding block_subsidy_sat
block_subsidy_sat-none_iff net now none cache = ground arith
block_subsidy_sat-none_iff net now (some h) cache = ground arith

-- ===== src/Web/Sampler/Ticks.antt =====
-- The traffic that a tick records for a bucket, and over many ticks for a container (argus/web/sampler.py).
use bitcoin_argus.Common.{
  ℕ, ◌+◌, ◌≤◌, ◌<◌, ◌≡◌, ◌↔◌, ◌∙◌, refl, String, true, false, ◌&&◌, some, or_else, List, [], ◌∷◌,
  arith, if◌then◌else◌, str_eq, str_eq_iff, All, inl, inr, Bool-cases,
}
use bitcoin_argus.Web.History.{Gauge, total}
use bitcoin_argus.Web.Sampler.{
  Spot, same_spot, ContainerSample, delta, get, set, add_bytes, Totals, add_sample, add_samples,
  totals, Sampler,
}
use bitcoin_argus.Web.Sampler.Counters.{get-set, get-set_of}

same_spot_iff : (a b : Spot) → (same_spot a b ≡ true) ↔ (a ≡ b)
same_spot_iff a b = ground (arith, str_eq_iff a.net b.net, str_eq_iff a.bucket b.bucket)

get-add_bytes :
    (j k : Spot) (n : ℕ) (d : List (Spot × ℕ))
    → or_else (get same_spot k (add_bytes j n d)) 0
      ≡ or_else (get same_spot k d) 0 + (if same_spot j k then n else 0)
get-add_bytes j k n d = ground (
  arith,
  get-set_of same_spot same_spot_iff j k (or_else (get same_spot j d) 0 + n) d,
  same_spot_iff j k,
)

-- The names of containers with counters are all different.
abbrev pub Distinct : {g : Gauge} → List (ContainerSample g) → Type 0
Distinct [] = Unit
Distinct (s ∷ ss) = All (λ r. str_eq s.name r.name ≡ false) ss × Distinct ss

module _ {g : Gauge} where
  -- What a sample adds to a bucket's traffic by one of its counters.
  abbrev pub share : (ContainerSample g → ℕ) → Spot → List (String × ℕ) → ContainerSample g → ℕ
  share counter k last s =
      if s.has_net && same_spot s.spot k then delta (counter s) (get str_eq s.name last) else 0

  total-share-set :
      (counter : ContainerSample g → ℕ) (k : Spot) (name : String) (v : ℕ) (d : List (String × ℕ))
      (ss : List (ContainerSample g))
      → All (λ r. str_eq name r.name ≡ false) ss
      → total (share counter k (set str_eq name v d)) ss ≡ total (share counter k d) ss
  total-share-set counter k name v d [] h = refl
  total-share-set counter k name v d (s ∷ ss) h =
      let same : get str_eq s.name (set str_eq name v d) ≡ get str_eq s.name d =
        get-set name s.name v d ∙ rw (h.0) refl in
      rw (same, total-share-set counter k name v d ss h.1) refl

  add_samples-rx :
      (k : Spot) (ss : List (ContainerSample g)) (t : Totals g)
      → Distinct ss
      → or_else (get same_spot k (add_samples ss t).rx) 0
        ≡ or_else (get same_spot k t.rx) 0 + total (share (λ s. s.rx) k t.last_rx) ss
  unfolding add_samples add_sample
  add_samples-rx k [] t d = omega arith
  add_samples-rx k (s ∷ ss) t d = elim (Bool-cases s.has_net) [
    | inl e ↦ ground (
      arith,
      add_samples-rx k ss (add_sample s t) d.1,
      get-add_bytes s.spot k (delta s.rx (get str_eq s.name t.last_rx)) t.rx,
      total-share-set (λ s. s.rx) k s.name s.rx t.last_rx ss d.0,
    )
    | inr e ↦ ground (arith, add_samples-rx k ss (add_sample s t) d.1)
  ]

  add_samples-tx :
      (k : Spot) (ss : List (ContainerSample g)) (t : Totals g)
      → Distinct ss
      → or_else (get same_spot k (add_samples ss t).tx) 0
        ≡ or_else (get same_spot k t.tx) 0 + total (share (λ s. s.tx) k t.last_tx) ss
  unfolding add_samples add_sample
  add_samples-tx k [] t d = omega arith
  add_samples-tx k (s ∷ ss) t d = elim (Bool-cases s.has_net) [
    | inl e ↦ ground (
      arith,
      add_samples-tx k ss (add_sample s t) d.1,
      get-add_bytes s.spot k (delta s.tx (get str_eq s.name t.last_tx)) t.tx,
      total-share-set (λ s. s.tx) k s.name s.tx t.last_tx ss d.0,
    )
    | inr e ↦ ground (arith, add_samples-tx k ss (add_sample s t) d.1)
  ]

  -- If the names differ, the bytes that a bucket received in a tick, and those that it sent, are the
  -- sums of the differences of its containers' counters of these bytes from the baselines before the
  -- tick.
  pub totals_traffic :
      (k : Spot) (ss : List (ContainerSample g)) (s : Sampler g)
      → Distinct ss
      → (or_else (get same_spot k (totals ss s).rx) 0 ≡ total (share (λ c. c.rx) k s.last_rx) ss)
        × (or_else (get same_spot k (totals ss s).tx) 0 ≡ total (share (λ c. c.tx) k s.last_tx) ss)
  unfolding totals
  totals_traffic k ss s d =
      let start : Totals g = record {
        cpu = [];
        ram = [];
        rx = [];
        tx = [];
        seen_names = [];
        last_rx = s.last_rx;
        last_tx = s.last_tx;
      } in
      (omega (arith, add_samples-rx k ss start d), omega (arith, add_samples-tx k ss start d))

-- What happened to a container between two ticks: it ran on and so many bytes passed, or it restarted,
-- with so many bytes before its last start and so many after it.
pub data Interval : Type 0 where
  ran : ℕ → Interval
  restarted : ℕ → ℕ → Interval

abbrev pub passed : Interval → ℕ
passed (ran n) = n
passed (restarted before after) = before + after

-- The bytes that no reading shows.
abbrev pub unread : Interval → ℕ
unread (ran n) = 0
unread (restarted before after) = before

-- The counter at the end, from what it was at the beginning.
abbrev pub reading : ℕ → Interval → ℕ
reading last (ran n) = last + n
reading last (restarted before after) = after

-- After every restart the counter is below the reading before it.
abbrev pub Noticed : ℕ → List Interval → Type 0
Noticed last [] = Unit
Noticed last (ran n ∷ is) = Noticed (last + n) is
Noticed last (restarted before after ∷ is) = (after < last) × Noticed after is

-- The differences that the ticks take, each from the reading before.
unfoldable pub deltas : ℕ → List Interval → ℕ
deltas last [] = 0
deltas last (i ∷ is) = delta (reading last i) (some last) + deltas (reading last i) is

deltas-le : (last : ℕ) (is : List Interval) → deltas last is + total unread is ≤ total passed is
unfolding deltas delta
deltas-le last [] = omega arith
deltas-le last (ran n ∷ is) = ground (arith, deltas-le (last + n) is)
deltas-le last (restarted before after ∷ is) = ground (arith, deltas-le after is)

deltas-Noticed :
    (last : ℕ) (is : List Interval)
    → Noticed last is
    → deltas last is + total unread is ≡ total passed is
unfolding deltas delta
deltas-Noticed last [] h = omega arith
deltas-Noticed last (ran n ∷ is) h = ground (arith, deltas-Noticed (last + n) is h)
deltas-Noticed last (restarted before after ∷ is) h =
    ground (arith, deltas-Noticed after is h.1, h.0)

-- The differences of a counter's readings, with the bytes that a restart wiped before they were read, are
-- never more than what passed, and exactly that if after every restart the counter is below the
-- reading before it.
pub deltas_bounds :
    (last : ℕ) (is : List Interval)
    → (deltas last is + total unread is ≤ total passed is)
      × (Noticed last is → deltas last is + total unread is ≡ total passed is)
deltas_bounds last is = (deltas-le last is, deltas-Noticed last is)

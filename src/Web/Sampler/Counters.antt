-- ===== src/Web/Sampler/Counters.antt =====
-- The baselines and the differences of the byte counters (argus/web/sampler.py).
use bitcoin_argus.Common.{
  ℕ, ◌≡◌, ◌↔◌, ◌∙◌, refl, String, Bool, true, false, not, ◌&&◌, ◌||◌, Option, none, some, List, [],
  ◌∷◌, arith, if◌then◌else◌, str_eq, str_eq_iff, filter, any, inl, inr, Bool-cases,
}
use bitcoin_argus.Web.History.{Gauge}
use bitcoin_argus.Web.Sampler.{
  ContainerSample, get, set, Totals, add_sample, add_samples, is_gone, totals, tick, Sampler,
  Settings, DiskUsage, HostReading,
}

-- A read after a write, for keys whose test is equality.
pub get-set_of :
    {K V : Type 0} (same : K → K → Bool) (same_iff : (a b : K) → (same a b ≡ true) ↔ (a ≡ b))
    (j k : K) (v : V) (d : List (K × V))
    → get same k (set same j v d) ≡ (if same j k then some v else get same k d)
get-set_of same same_iff j k v [] = refl
get-set_of same same_iff j k v (e ∷ d) = elim (Bool-cases (same e.0 j)) [
  | inl t ↦ ground (arith, same_iff e.0 j)
  | inr t ↦
      ground (arith, get-set_of same same_iff j k v d, same_iff e.0 k, same_iff j k, same_iff e.0 j)
]

pub get-set :
    {V : Type 0} (name n : String) (v : V) (d : List (String × V))
    → get str_eq n (set str_eq name v d) ≡ (if str_eq name n then some v else get str_eq n d)
get-set = get-set_of str_eq str_eq_iff

-- The last reading of a container among the samples, or what was there before.
abbrev pub last_reading : {g : Gauge} → String → List (ContainerSample g) → Option ℕ → Option ℕ
last_reading n [] o = o
last_reading n (s ∷ ss) o =
    last_reading n ss (if s.has_net && str_eq s.name n then some s.rx else o)

module _ {g : Gauge} where
  add_samples-last_rx :
      (n : String) (ss : List (ContainerSample g)) (t : Totals g)
      → get str_eq n (add_samples ss t).last_rx ≡ last_reading n ss (get str_eq n t.last_rx)
  unfolding add_samples add_sample
  add_samples-last_rx n [] t = refl
  add_samples-last_rx n (s ∷ ss) t = elim (Bool-cases s.has_net) [
    | inl e ↦
        add_samples-last_rx n ss (add_sample s t) ∙ rw (e, get-set s.name n s.rx t.last_rx) refl
    | inr e ↦ add_samples-last_rx n ss (add_sample s t) ∙ rw (e) refl
  ]

  abbrev is_seen : String → List (ContainerSample g) → Bool
  is_seen n ss = any (λ s. s.has_net && str_eq s.name n) ss

  add_samples-seen :
      (n : String) (ss : List (ContainerSample g)) (t : Totals g)
      → any (λ x. str_eq x n) (add_samples ss t).seen_names
        ≡ (is_seen n ss || any (λ x. str_eq x n) t.seen_names)
  unfolding add_samples add_sample
  add_samples-seen n [] t = refl
  add_samples-seen n (s ∷ ss) t = ground (arith, add_samples-seen n ss (add_sample s t))

  -- A container that is seen has a reading of its own, whatever was there before.
  last_reading_seen :
      (n : String) (ss : List (ContainerSample g)) (o o' : Option ℕ)
      → is_seen n ss ≡ true
      → last_reading n ss o ≡ last_reading n ss o'
  last_reading_seen n [] o o' h = cc
  last_reading_seen n (s ∷ ss) o o' h = elim (Bool-cases (s.has_net && str_eq s.name n)) [
    | inl e ↦ rw (e) refl
    | inr e ↦ rw (e) (last_reading_seen n ss o o' (ground arith))
  ]

  last_reading_unseen :
      (n : String) (ss : List (ContainerSample g))
      → is_seen n ss ≡ false
      → last_reading n ss none ≡ none
  last_reading_unseen n [] h = refl
  last_reading_unseen n (s ∷ ss) h = ground (arith, last_reading_unseen n ss)

get-filter :
    (n : String) (p : String → Bool) (d : List (String × ℕ))
    → get str_eq n (filter (λ e. p e.0) d) ≡ (if p n then get str_eq n d else none)
get-filter n p [] = ground arith
get-filter n p (e ∷ d) = ground (arith, get-filter n p d, str_eq_iff e.0 n)

get-none_of_absent :
    (n : String) (d : List (String × ℕ)) → any (λ e. str_eq e.0 n) d ≡ false → get str_eq n d ≡ none
get-none_of_absent n [] h = refl
get-none_of_absent n (e ∷ d) h = ground (arith, get-none_of_absent n d)

-- After a tick the baseline of a name is its reading in this tick, and there is none for a name that has
-- no reading in this tick.
pub tick-last_rx :
    {g : Gauge} (cfg : Settings) (now : ℕ) (ss : List (ContainerSample g)) (df : Option DiskUsage)
    (host : HostReading g) (s : Sampler g) (n : String)
    → get str_eq n (tick cfg now ss df host s).last_rx ≡ last_reading n ss none
unfolding tick totals
tick-last_rx {g} cfg now ss df host s n =
    let t0 : Totals g = record {
      cpu = [];
      ram = [];
      rx = [];
      tx = [];
      seen_names = [];
      last_rx = s.last_rx;
      last_tx = s.last_tx;
    } in
    let t : Totals g = add_samples ss t0 in
    let read = add_samples-last_rx n ss t0 in
    let seen = add_samples-seen n ss t0 in
    get-filter n (λ x. not (is_gone t.seen_names t.last_rx x)) t.last_rx
    ∙ elim (Bool-cases (is_seen n ss)) [
      | inl e ↦ ground (arith, last_reading_seen n ss none (get str_eq n s.last_rx))
      | inr e ↦ ground (arith, last_reading_unseen n ss, get-none_of_absent n t.last_rx)
    ]

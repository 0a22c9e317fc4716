-- ===== src/Web/Sampler.antt =====
-- The sampler of the history (argus/web/sampler.py): what a tick makes of the containers' counters, the
-- disk sizes and the counters of the host. Readings of the containers, the disks and the host are
-- arguments; times are whole seconds.
pub mod Counters
pub mod Ticks
use bitcoin_argus.Common.{
  ℕ, zero, suc, ◌+◌, ◌-◌, ◌*◌, max, String, Bool, true, false, not, ◌&&◌, ◌||◌, Option, none, some,
  or_else, List, [], ◌∷◌, ◌++◌, map, ltb, leb, ◌==◌, if◌then◌else◌, str_eq, filter, any,
}
use bitcoin_argus.Common.Table.{find?, upsert, delete}
use bitcoin_argus.Web.History.{Gauge, SampleRow, MetricRow, write_samples, rollup, prune}

-- A network and a bucket, the key of the dictionaries of a tick.
pub record Spot : Type 0 where
  pub net : String
  pub bucket : String

abbrev pub same_spot : Spot → Spot → Bool
same_spot a b = str_eq a.net b.net && str_eq a.bucket b.bucket

pub record ContainerSample (g : Gauge) : Type 0 where
  pub name : String
  pub spot : Spot
  pub ram : ℕ
  pub cpu : g.Carrier
  pub rx : ℕ
  pub tx : ℕ
  pub has_net : Bool

-- `_delta`; the difference is that of the integers, since it is taken only from a smaller number.
unfoldable pub delta : ℕ → Option ℕ → ℕ
delta cur none = 0
delta cur (some last) = if ltb cur last then cur else cur - last

-- A dictionary is the list of its entries; `get`, a write and `d[k] = d.get(k, 0) + v`.
abbrev pub get {ℓ κ} : {K : Type ℓ} {V : Type κ} → (K → K → Bool) → K → List (K × V) → Option V
get same k [] = none
get same k (e ∷ d) = if same e.0 k then some e.1 else get same k d

abbrev pub set {ℓ κ} :
    {K : Type ℓ} {V : Type κ} → (K → K → Bool) → K → V → List (K × V) → List (K × V)
set same k v d = upsert (λ e. same e.0 k) (λ e. (e.0, v)) (k, v) d

abbrev pub add {ℓ κ} :
    {K : Type ℓ} {V : Type κ}
    → (K → K → Bool)
    → (V → V → V)
    → V
    → K
    → V
    → List (K × V)
    → List (K × V)
add same plus zero_of k v d = set same k (plus (or_else (get same k d) zero_of) v) d

abbrev pub add_bytes : Spot → ℕ → List (Spot × ℕ) → List (Spot × ℕ)
add_bytes k n d = add same_spot (λ a b. a + b) 0 k n d

-- The dictionaries that the loop over the samples fills.
pub record Totals (g : Gauge) : Type 0 where
  pub cpu : List (Spot × g.Carrier)
  pub ram : List (Spot × ℕ)
  pub rx : List (Spot × ℕ)
  pub tx : List (Spot × ℕ)
  pub seen_names : List String
  pub last_rx : List (String × ℕ)
  pub last_tx : List (String × ℕ)

module _ {g : Gauge} where
  unfoldable pub add_sample : ContainerSample g → Totals g → Totals g
  add_sample s t =
      let cpu = add same_spot g.plus g.nothing s.spot s.cpu t.cpu in
      let ram = add_bytes s.spot s.ram t.ram in
      if s.has_net
      then record {
        cpu = cpu;
        ram = ram;
        rx = add_bytes s.spot (delta s.rx (get str_eq s.name t.last_rx)) t.rx;
        tx = add_bytes s.spot (delta s.tx (get str_eq s.name t.last_tx)) t.tx;
        seen_names = s.name ∷ t.seen_names;
        last_rx = set str_eq s.name s.rx t.last_rx;
        last_tx = set str_eq s.name s.tx t.last_tx;
      }
      else record {
        cpu = cpu;
        ram = ram;
        rx = t.rx;
        tx = t.tx;
        seen_names = t.seen_names;
        last_rx = t.last_rx;
        last_tx = t.last_tx;
      }

  unfoldable pub add_samples : List (ContainerSample g) → Totals g → Totals g
  add_samples [] t = t
  add_samples (s ∷ ss) t = add_samples ss (add_sample s t)

-- A name in `set(self._last_rx) - seen_names`, and a dictionary without such names.
abbrev pub is_gone : List String → List (String × ℕ) → String → Bool
is_gone seen last_rx name =
    any (λ e. str_eq e.0 name) last_rx && not (any (λ n. str_eq n name) seen)

abbrev pub forget : List String → List (String × ℕ) → List (String × ℕ) → List (String × ℕ)
forget seen last_rx d = filter (λ e. not (is_gone seen last_rx e.0)) d

-- The sizes that `df` reports, and the throttle on asking for them.
pub record DiskUsage : Type 0 where
  pub volumes : List (Spot × ℕ)
  pub containers : List (Spot × ℕ)

unfoldable pub add_volumes : List (Spot × ℕ) → List (Spot × ℕ) → List (Spot × ℕ)
add_volumes [] fresh = fresh
add_volumes (v ∷ vs) fresh = add_volumes vs (if ltb 0 v.1 then add_bytes v.0 v.1 fresh else fresh)

unfoldable pub add_containers : List (Spot × ℕ) → List (Spot × ℕ) → List (Spot × ℕ)
add_containers [] fresh = fresh
add_containers (c ∷ cs) fresh = add_containers cs (add_bytes c.0 c.1 fresh)

pub record Disks : Type 0 where
  pub last_disk : List (Spot × ℕ)
  pub last_df_ts : ℕ

abbrev pub is_empty {ℓ} : {A : Type ℓ} → List A → Bool
is_empty [] = true
is_empty _ = false

-- There is no usage if the call fails.
unfoldable pub refresh_disk : ℕ → Option DiskUsage → ℕ → Disks → Disks
refresh_disk disk_interval df now d =
    if ltb (now - d.last_df_ts) disk_interval && not (is_empty d.last_disk) then d else elim df [
      | none ↦ d
      | some u ↦
          let fresh = add_containers u.containers (add_volumes u.volumes []) in
          if is_empty fresh then d else record { last_disk = fresh; last_df_ts = now }
    ]

pub record HostReading (g : Gauge) : Type 0 where
  pub cpu : g.Carrier
  pub ram : ℕ
  pub disk : Option ℕ
  pub net : Option (ℕ × ℕ)

pub record Settings : Type 0 where
  pub interval : ℕ
  pub disk_interval : ℕ
  pub raw_hours : ℕ
  pub hourly_days : ℕ
  pub daily_days : ℕ

pub record Sampler (g : Gauge) : Type 0 where
  pub last_rx : List (String × ℕ)
  pub last_tx : List (String × ℕ)
  pub disks : Disks
  pub host_rx : Option ℕ
  pub host_tx : Option ℕ
  pub last_tick : ℕ
  pub table : List (MetricRow g)

abbrev pub host_key : String
host_key = "__host__"

-- `set(cpu) | set(self._last_disk)`
unfoldable pub union : {V : Type 0} → List (Spot × V) → List (Spot × ℕ) → List Spot
union cpu disk =
    map (λ e. e.0) cpu ++ map (λ e. e.0) (filter (λ e. not (any (λ c. same_spot c.0 e.0) cpu)) disk)

module _ {g : Gauge} where
  abbrev pub host_row : HostReading g → Option ℕ → Option ℕ → SampleRow g
  host_row h host_rx host_tx = record {
    net = host_key;
    bucket = host_key;
    cpu = h.cpu;
    ram = h.ram;
    disk = h.disk;
    rx = elim h.net [ none ↦ 0 | some c ↦ delta c.0 host_rx ];
    tx = elim h.net [ none ↦ 0 | some c ↦ delta c.1 host_tx ];
  }

  abbrev pub row_of : Totals g → List (Spot × ℕ) → Spot → SampleRow g
  row_of t disk k = record {
    net = k.net;
    bucket = k.bucket;
    cpu = or_else (get same_spot k t.cpu) g.nothing;
    ram = or_else (get same_spot k t.ram) 0;
    disk = get same_spot k disk;
    rx = or_else (get same_spot k t.rx) 0;
    tx = or_else (get same_spot k t.tx) 0;
  }

  -- The dictionaries at the end of the loop.
  unfoldable pub totals : List (ContainerSample g) → Sampler g → Totals g
  totals samples s = add_samples samples (record {
    cpu = [];
    ram = [];
    rx = [];
    tx = [];
    seen_names = [];
    last_rx = s.last_rx;
    last_tx = s.last_tx;
  })

  unfoldable pub tick :
      Settings
      → ℕ
      → List (ContainerSample g)
      → Option DiskUsage
      → HostReading g
      → Sampler g
      → Sampler g
  tick cfg now samples df host s =
      let dt = max 1 (if s.last_tick == 0 then cfg.interval else now - s.last_tick) in
      let t = totals samples s in
      let disks = refresh_disk cfg.disk_interval df now s.disks in
      let rows =
        map (row_of t disks.last_disk) (union t.cpu disks.last_disk)
        ++ host_row host s.host_rx s.host_tx ∷ [] in
      record {
        last_rx = forget t.seen_names t.last_rx t.last_rx;
        last_tx = forget t.seen_names t.last_rx t.last_tx;
        disks = disks;
        host_rx = elim host.net [ none ↦ s.host_rx | some c ↦ some c.0 ];
        host_tx = elim host.net [ none ↦ s.host_tx | some c ↦ some c.1 ];
        last_tick = now;
        table =
            prune now cfg.raw_hours cfg.hourly_days cfg.daily_days
              (rollup now (write_samples now dt rows s.table));
      }

-- ===== src/Web/Metrics/Collect.antt =====
-- The live usage of argus/web/metrics.py: the samples of the containers, the sizes of the volumes and of the
-- containers' layers, and the sums of each bucket. The container API is an argument, where `none` stands for
-- a call that raised; the order in which the threads answer is that of the containers.
use bitcoin_argus.Common.{
  ℕ, ◌+◌, Bool, ◌&&◌, Option, none, some, or_else, List, [], ◌∷◌, ◌++◌, ltb, if◌then◌else◌,
  codes_eq,
}
use bitcoin_argus.Common.Float.{Float}
use bitcoin_argus.Common.Table.{upsert}
use bitcoin_argus.Web.Metrics.{
  Text, classify, MemoryStats, CpuStats, Interface, container_memory_bytes, container_cpu_cores,
  container_net_bytes,
}

-- A network and a bucket.
abbrev pub Spot : Type 0
Spot = Text × Text

abbrev pub same_spot : Spot → Spot → Bool
same_spot a b = codes_eq a.0 b.0 && codes_eq a.1 b.1

-- What a container's statistics say.
pub record Stats : Type 0 where
  pub memory : MemoryStats
  pub cpu : CpuStats
  pub precpu : CpuStats
  pub networks : List Interface

module _ (fl : Float) where
  pub record Sample : Type 0 where
    pub name : Text
    pub spot : Spot
    pub ram : ℕ
    pub cpu : fl.Carrier
    pub rx : ℕ
    pub tx : ℕ
    pub has_net : Bool

  pub record Usage : Type 0 where
    pub ram : ℕ
    pub cpu : fl.Carrier
    pub disk : ℕ
    pub net_rx : ℕ
    pub net_tx : ℕ

abbrev pub Table : Float → Type 0
Table fl = List (Spot × Usage fl)

module _ {fl : Float} where
  unfoldable pub sample_of : Text → Spot → Stats → Sample fl
  sample_of name spot stats =
      let net = container_net_bytes stats.networks in
      record {
        name = name;
        spot = spot;
        ram = container_memory_bytes stats.memory;
        cpu = container_cpu_cores fl stats.cpu stats.precpu;
        rx = net.0;
        tx = net.1;
        has_net = net.2;
      }

  -- `per_container_samples`: a name that is not ours, or whose statistics cannot be read, has no sample.
  unfoldable pub per_container_samples :
      (Text → Text) → (Text → Option Stats) → List Text → List (Sample fl)
  per_container_samples lower read [] = []
  per_container_samples lower read (name ∷ names) =
      let rest = per_container_samples lower read names in
      elim (classify lower name) [
        | none ↦ rest
        | some spot ↦ elim (read name) [
          | none ↦ rest
          | some stats ↦ sample_of name spot stats ∷ rest
        ]
      ]

  unfoldable pub no_usage : Usage fl
  no_usage = record { ram = 0; cpu = fl.of_nat 0; disk = 0; net_rx = 0; net_tx = 0 }

  -- `_add`, with what is then done to the entry.
  unfoldable pub add_to : Spot → (Usage fl → Usage fl) → Table fl → Table fl
  add_to spot f usage =
      upsert (λ e. same_spot spot e.0) (λ e. (e.0, f e.1)) (spot, f no_usage) usage

  unfoldable pub with_sample : Sample fl → Usage fl → Usage fl
  with_sample s u = record {
    ram = u.ram + s.ram;
    cpu = fl.add u.cpu s.cpu;
    disk = u.disk;
    net_rx = if s.has_net then u.net_rx + s.rx else u.net_rx;
    net_tx = if s.has_net then u.net_tx + s.tx else u.net_tx;
  }

  unfoldable pub add_samples : List (Sample fl) → Table fl → Table fl
  add_samples [] usage = usage
  add_samples (s ∷ ss) usage = add_samples ss (add_to s.spot (with_sample s) usage)

  unfoldable pub with_disk : ℕ → Usage fl → Usage fl
  with_disk size u = record u { disk = u.disk + size }

  -- A volume without a size, or of none, adds no entry, as one of an unknown (negative) size, which is
  -- `none` here; a container's layer always adds one.
  unfoldable pub add_volumes : (Text → Text) → List (Text × Option ℕ) → Table fl → Table fl
  add_volumes lower [] usage = usage
  add_volumes lower ((name, size) ∷ volumes) usage = elim (classify lower name) [
    | none ↦ add_volumes lower volumes usage
    | some spot ↦
        add_volumes lower volumes
          (if ltb 0 (or_else size 0) then add_to spot (with_disk (or_else size 0)) usage else usage)
  ]

  unfoldable pub add_layers : (Text → Text) → List (Text × Option ℕ) → Table fl → Table fl
  add_layers lower [] usage = usage
  add_layers lower ((name, size) ∷ layers) usage = elim (classify lower name) [
    | none ↦ add_layers lower layers usage
    | some spot ↦ add_layers lower layers (add_to spot (with_disk (or_else size 0)) usage)
  ]

-- What went wrong.
pub data CollectError : Type 0 where
  container_stats disk_usage : CollectError

-- The parts of `/system/df`; a layer is named by the first of its container's names without slashes.
pub record Df : Type 0 where
  pub volumes : List (Text × Option ℕ)
  pub layers : List (Text × Option ℕ)

-- The loops of `collect` over the containers and the disks.
unfoldable pub collect_usage :
    {fl : Float}
    → (Text → Text)
    → (Text → Option Stats)
    → Option (List Text)
    → Option Df
    → Table fl × List CollectError
collect_usage {fl = fl} lower read containers df =
    let live : Table fl × List CollectError = elim containers [
      | none ↦ ([], container_stats ∷ [])
      | some names ↦ (add_samples (per_container_samples lower read names) [], [])
    ] in
    elim df [
      | none ↦ (live.0, live.1 ++ disk_usage ∷ [])
      | some d ↦ (add_layers lower d.layers (add_volumes lower d.volumes live.0), live.1)
    ]

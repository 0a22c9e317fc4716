-- ===== src/Examples/Metering.antt =====
-- The theorems about the attribution of containers, at one tail; `str.lower` is the identity on it.
use bitcoin_argus.Common.{◌+◌, ◌≡◌, none, some, Option, List, [], ◌∷◌, All, if◌then◌else◌}
use bitcoin_argus.Common.Float.{fixed_point}
use bitcoin_argus.Faucet.Address.{codes}
use bitcoin_argus.Web.Metrics.{Text, networks}
use bitcoin_argus.Web.Metrics.Names.{Attributed, BitcartAttributed, classify-network}
use bitcoin_argus.Web.Metrics.Collect.{Spot, Stats, per_container_samples, Df, collect_usage}
use bitcoin_argus.Web.Metrics.Sums.{usage_of, sum_at, sizes_at}
use bitcoin_argus.Web.Metrics.Totals.{collect_usage-totals}

abbrev lower : Text → Text
lower t = t

classify-network_example :
    All
      (λ net.
        Attributed lower (codes "fulcrum-1") net × BitcartAttributed lower (codes "fulcrum-1") net)
      networks
classify-network_example = classify-network lower (codes "fulcrum-1")

-- Two containers of one bucket, one of which has no network of its own, and a volume.
abbrev stats : Stats
stats = record {
  memory = record {
    usage = some 10;
    inactive_file = some 4;
    total_inactive_file = none;
    cache = none;
  };
  cpu = record {
    total_usage = none;
    system_cpu_usage = none;
    online_cpus = none;
    percpu_usage = 0;
  };
  precpu = record {
    total_usage = none;
    system_cpu_usage = none;
    online_cpus = none;
    percpu_usage = 0;
  };
  networks = [];
}

abbrev read : Text → Option Stats
read name = some stats

abbrev names : List Text
names = codes "argus-signet-lnd-1" ∷ codes "argus-signet-lnd-init" ∷ []

abbrev df : Df
df = record { volumes = (codes "argus-signet_lnd", some 7) ∷ []; layers = [] }

abbrev lnd : Spot
lnd = (codes "signet", codes "lnd")

collect_usage-totals_example :
    ((usage_of {fl = fixed_point} lnd (collect_usage lower read (some names) (some df)).0).ram
      ≡ sum_at {fl = fixed_point} (λ s. s.ram) lnd (per_container_samples lower read names))
    × ((usage_of {fl = fixed_point} lnd (collect_usage lower read (some names) (some df)).0).net_rx
        ≡ sum_at {fl = fixed_point}
            (λ s. if s.has_net then s.rx else 0)
            lnd
            (per_container_samples lower read names))
    × ((usage_of {fl = fixed_point} lnd (collect_usage lower read (some names) (some df)).0).net_tx
        ≡ sum_at {fl = fixed_point}
            (λ s. if s.has_net then s.tx else 0)
            lnd
            (per_container_samples lower read names))
    × ((usage_of {fl = fixed_point} lnd (collect_usage lower read (some names) (some df)).0).disk
        ≡ sizes_at lower (λ n. n) lnd df.volumes + sizes_at lower (λ n. n) lnd df.layers)
collect_usage-totals_example = collect_usage-totals fixed_point lower read names df lnd

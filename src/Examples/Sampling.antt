-- ===== src/Examples/Sampling.antt =====
-- The theorems about the sampler, at two containers of one bucket.
use bitcoin_argus.Common.{ℕ, ◌+◌, ◌≤◌, String, ◌≡◌, refl, arith, true, none, or_else, List, [], ◌∷◌}
use bitcoin_argus.Web.History.{total}
use bitcoin_argus.Web.Sampler.{
  Spot, same_spot, ContainerSample, Sampler, Settings, HostReading, get, totals,
}
use bitcoin_argus.Web.Sampler.Ticks.{
  share, totals_traffic, Interval, ran, restarted, passed, unread, Noticed, deltas, deltas_bounds,
}
use bitcoin_argus.Examples.History.{gauge}

abbrev spot : Spot
spot = record { net = "signet"; bucket = "lnd" }

abbrev container : String → ℕ → ContainerSample gauge
container name rx = record {
  name = name;
  spot = spot;
  ram = 5;
  cpu = 1;
  rx = rx;
  tx = 0;
  has_net = true;
}

-- The first has a baseline of 40, and the second has none.
abbrev containers : List (ContainerSample gauge)
containers = container "argus-signet-lnd" 100 ∷ container "argus-signet-lnd-init" 7 ∷ []

abbrev sampler : Sampler gauge
sampler = record {
  last_rx = ("argus-signet-lnd", 40) ∷ ("gone", 3) ∷ [];
  last_tx = ("argus-signet-lnd", 0) ∷ ("gone", 3) ∷ [];
  disks = record { last_disk = []; last_df_ts = 0 };
  host_rx = none;
  host_tx = none;
  last_tick = 1000;
  table = [];
}

abbrev settings : Settings
settings = record {
  interval = 60;
  disk_interval = 3600;
  raw_hours = 2;
  hourly_days = 3;
  daily_days = 365;
}

abbrev host : HostReading gauge
host = record { cpu = 1; ram = 2; disk = none; net = none }

totals_traffic_example :
    (or_else (get same_spot spot (totals containers sampler).rx) 0
      ≡ total (share (λ c. c.rx) spot sampler.last_rx) containers)
    × (or_else (get same_spot spot (totals containers sampler).tx) 0
        ≡ total (share (λ c. c.tx) spot sampler.last_tx) containers)
totals_traffic_example = totals_traffic spot containers sampler ((refl, tt), (tt, tt))

-- The container restarts in the second interval, with 10 bytes unread.
abbrev intervals : List Interval
intervals = ran 60 ∷ restarted 10 20 ∷ ran 5 ∷ []

deltas_bounds_example :
    (deltas 40 intervals + total unread intervals ≤ total passed intervals)
    × (Noticed 40 intervals → deltas 40 intervals + total unread intervals ≡ total passed intervals)
deltas_bounds_example = deltas_bounds 40 intervals

intervals-Noticed : Noticed 40 intervals
intervals-Noticed = (omega arith, tt)

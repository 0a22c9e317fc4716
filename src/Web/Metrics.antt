-- ===== src/Web/Metrics.antt =====
-- The attribution of containers and volumes to networks and buckets, and the readings of a container's
-- statistics (argus/web/metrics.py). A name is the list of its code points; `str.lower` is an argument,
-- and the fields of the statistics that are missing are `none`.
pub mod Names
pub mod Collect
pub mod Sums
pub mod Totals
use bitcoin_argus.Common.{
  ℕ, zero, suc, ◌+◌, ◌-◌, ◌*◌, String, Bool, true, false, not, ◌&&◌, ◌||◌, Option, none, some,
  or_else, List, [], ◌∷◌, ◌++◌, ltb, leb, ◌==◌, if◌then◌else◌, codes_eq, any, length, map, drop,
}
use bitcoin_argus.Common.Float.{Float}
use bitcoin_argus.Faucet.Address.{codes}
use bitcoin_argus.Deploy.Ports.{network_order}

abbrev pub Text : Type 0
Text = List ℕ

-- `startswith`, `in` and `endswith`.
unfoldable pub starts_with : Text → Text → Bool
starts_with [] t = true
starts_with (c ∷ cs) [] = false
starts_with (c ∷ cs) (d ∷ ds) = (c == d) && starts_with cs ds

unfoldable pub contains : Text → Text → Bool
contains key [] = starts_with key []
contains key (c ∷ cs) = starts_with key (c ∷ cs) || contains key cs

unfoldable pub ends_with : Text → Text → Bool
ends_with key [] = codes_eq key []
ends_with key (c ∷ cs) = codes_eq key (c ∷ cs) || ends_with key cs

-- `_KEYWORD_BUCKETS`
abbrev pub keyword_buckets : List Text
keyword_buckets = map codes (
    "bitcoind" ∷ "miner" ∷ "lnd2" ∷ "lnd3" ∷ "lnd" ∷ "captaind" ∷ "cln" ∷ "cashupayserver"
    ∷ "cashu-wallet" ∷ "cashu" ∷ "woocommerce" ∷ "mempool" ∷ "fulcrum" ∷ [])

unfoldable pub first_keyword : List Text → Text → Option Text
first_keyword [] t = none
first_keyword (key ∷ keys) t = if contains key t then some key else first_keyword keys t

unfoldable pub bucket_for : (Text → Text) → Text → Text
bucket_for lower tail =
    let t = lower tail in
    elim (first_keyword keyword_buckets t) [
      | some key ↦ key
      | none ↦
          if contains (codes "mariadb") t
            || (ends_with (codes "_db") t || ends_with (codes "-db") t)
          then codes "mempool"
          else elim tail [ [] ↦ codes "other" | c ∷ cs ↦ c ∷ cs ]
    ]

-- The keys in the order of their lengths, the longest first; equal lengths keep their order.
unfoldable pub insert_longest : Text → List Text → List Text
insert_longest t [] = t ∷ []
insert_longest t (u ∷ us) =
    let rest = insert_longest t us in if leb (length u) (length t) then t ∷ u ∷ us else u ∷ rest

unfoldable pub longest_first : List Text → List Text
longest_first [] = []
longest_first (t ∷ ts) = insert_longest t (longest_first ts)

abbrev pub hyphen : ℕ
hyphen = 45

abbrev pub underscore : ℕ
underscore = 95

unfoldable pub split_net_of : List Text → Text → Option Text × Text
split_net_of [] rest = (none, rest)
split_net_of (net ∷ nets) rest =
    let later = split_net_of nets rest in
    if codes_eq rest net
    then (some net, [])
    else if starts_with (net ++ hyphen ∷ []) rest || starts_with (net ++ underscore ∷ []) rest
    then (some net, drop (length net + 1) rest)
    else later

abbrev pub networks : List Text
networks = map codes network_order

unfoldable pub split_net : Text → Option Text × Text
split_net rest = split_net_of (longest_first networks) rest

-- The rest of a name after the first of the prefixes that it has.
unfoldable pub strip_prefix : List Text → Text → Option Text
strip_prefix [] name = none
strip_prefix (p ∷ ps) name =
    if starts_with p name then some (drop (length p) name) else strip_prefix ps name

abbrev pub argus_prefixes : List Text
argus_prefixes = map codes ("argus-" ∷ "argus_" ∷ [])

abbrev pub bitcart_prefixes : List Text
bitcart_prefixes = map codes ("bitcart-" ∷ "bitcart_" ∷ [])

-- The network and the bucket of a name, with the bucket that its prefix settles.
unfoldable pub classify_rest : (Text → Text) → Option Text → Text → Option (Text × Text)
classify_rest lower bucket_override rest =
    let split = split_net rest in
    elim split.0 [
      | none ↦ none
      | some net ↦ some (net, elim bucket_override [ none ↦ bucket_for lower split.1 | some b ↦ b ])
    ]

unfoldable pub classify : (Text → Text) → Text → Option (Text × Text)
classify lower name = elim (strip_prefix argus_prefixes name) [
  | none ↦ none
  | some rest ↦ elim (strip_prefix bitcart_prefixes rest) [
    | none ↦ classify_rest lower none rest
    | some rest' ↦ classify_rest lower (some (codes "bitcart")) rest'
  ]
]

-- The dictionary of memory statistics. A reading of 0 counts as missing where the code uses `or`.
pub record MemoryStats : Type 0 where
  pub usage : Option ℕ
  pub inactive_file : Option ℕ
  pub total_inactive_file : Option ℕ
  pub cache : Option ℕ

-- Python's `a or b` of numbers that may be missing.
abbrev pub or_nonzero : Option ℕ → ℕ → ℕ
or_nonzero none d = d
or_nonzero (some a) d = if a == 0 then d else a

unfoldable pub container_memory_bytes : MemoryStats → ℕ
container_memory_bytes mem =
    let cache =
      or_nonzero mem.inactive_file (or_nonzero mem.total_inactive_file (or_nonzero mem.cache 0)) in
    or_nonzero mem.usage 0 - cache

-- The two readings of the processors.
pub record CpuStats : Type 0 where
  pub total_usage : Option ℕ
  pub system_cpu_usage : Option ℕ
  pub online_cpus : Option ℕ
  pub percpu_usage : ℕ

unfoldable pub container_cpu_cores : (fl : Float) → CpuStats → CpuStats → fl.Carrier
container_cpu_cores fl cpu pre = elim cpu.total_usage [
  | none ↦ fl.of_nat 0
  | some cur ↦ elim pre.total_usage [
    | none ↦ fl.of_nat 0
    | some prev ↦ elim cpu.system_cpu_usage [
      | none ↦ fl.of_nat 0
      | some sys_cur ↦ elim pre.system_cpu_usage [
        | none ↦ fl.of_nat 0
        | some sys_prev ↦
            let online = or_nonzero cpu.online_cpus (or_nonzero (some cpu.percpu_usage) 1) in
            if leb sys_cur sys_prev || ltb cur prev
            then fl.of_nat 0
            else fl.mul (fl.ratio (cur - prev) (sys_cur - sys_prev)) (fl.of_nat online)
      ]
    ]
  ]
]

pub record Interface : Type 0 where
  pub rx_bytes : Option ℕ
  pub tx_bytes : Option ℕ

abbrev pub sum_of : (Interface → Option ℕ) → List Interface → ℕ
sum_of f [] = 0
sum_of f (i ∷ is) = or_nonzero (f i) 0 + sum_of f is

-- The last part is false for a container without interfaces of its own.
unfoldable pub container_net_bytes : List Interface → ℕ × ℕ × Bool
container_net_bytes [] = (0, 0, false)
container_net_bytes (i ∷ is) =
    (sum_of (λ v. v.rx_bytes) (i ∷ is), sum_of (λ v. v.tx_bytes) (i ∷ is), true)

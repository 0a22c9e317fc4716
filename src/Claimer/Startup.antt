-- ===== src/Claimer/Startup.antt =====
-- How the claimer begins (argus/claimer_src/claim.py): the wait for the node, the wallet and the address
-- that rewards go to.
use mathlib.Core.Path.{subst}
use bitcoin_argus.Common.{
  ℕ, zero, suc, ◌<◌, ◌≡◌, ◌↔◌, sym, String, Bool, true, false, Option, none, some, arith, str_eq,
  inl, inr, Bool-cases,
}
use bitcoin_argus.Claimer.{
  Reply, answered, failed, Failure, rpc_error, subprocess_error, Reply-cases,
}

-- The node and the wallet, with a state of their own. A poll answers whether the node is still in its
-- initial download, `getaddressinfo` whether the address is the wallet's; a call that
-- only acts has no failure or one.
pub record Backend : Type 1 where
  pub State : Type 0
  pub getblockchaininfo : State → State × Reply Bool
  pub createwallet : State → State × Option Failure
  pub loadwallet : State → State × Option Failure
  pub getaddressinfo : String → State → State × Reply Bool
  pub getnewaddress : State → State × Reply String

pub data Waiting (S : Type 0) : Type 0 where
  ready : S → Waiting S
  polling : S → Waiting S
  aborted : S → Waiting S

-- The failures that the wait passes over.
abbrev pub is_passed : Failure → Bool
is_passed subprocess_error = false
is_passed _ = true

module _ (b : Backend) where
  -- So many rounds of the `while True` of `wait_for_synced_node`.
  unfoldable pub wait_for_synced_node : ℕ → b.State → Waiting b.State
  wait_for_synced_node zero s = polling s
  wait_for_synced_node (suc n) s =
      let (s', reply) = b.getblockchaininfo s in
      elim reply [
        | answered false ↦ ready s'
        | answered true ↦ wait_for_synced_node n s'
        | failed e ↦ elim (is_passed e) [ true ↦ wait_for_synced_node n s' | false ↦ aborted s' ]
      ]

  -- The failure that stops `ensure_wallet`, if there is one.
  unfoldable pub ensure_wallet : b.State → b.State × Option Failure
  ensure_wallet s =
      let (s', created) = b.createwallet s in
      elim created [
        | none ↦ (s', none)
        | some rpc_error ↦
            let (s'', loaded) = b.loadwallet s' in
            elim loaded [
              | none ↦ (s'', none)
              | some rpc_error ↦ (s'', none)
              | some e ↦ (s'', some e)
            ]
        | some e ↦ (s', some e)
      ]

  -- The address in the file if it is still the wallet's, and otherwise the empty text.
  unfoldable pub kept_address : Option String → b.State → b.State × Reply String
  kept_address none s = (s, answered "")
  kept_address (some addr) s =
      let (s', mine) = b.getaddressinfo addr s in
      elim mine [
        | answered true ↦ (s', answered addr)
        | answered false ↦ (s', answered "")
        | failed rpc_error ↦ (s', answered "")
        | failed e ↦ (s', failed e)
      ]

  -- A new address is written to the file.
  unfoldable pub fresh_address : Option String → b.State → b.State × (Option String × Reply String)
  fresh_address file s =
      let (s', made) = b.getnewaddress s in
      elim made [
        | answered addr ↦ (s', (some addr, answered addr))
        | failed e ↦ (s', (file, failed e))
      ]

  unfoldable pub claim_address : Option String → b.State → b.State × (Option String × Reply String)
  claim_address file s =
      let (s', kept) = kept_address file s in
      elim kept [
        | failed e ↦ (s', (file, failed e))
        | answered addr ↦ elim (str_eq addr "") [
          | true ↦ fresh_address file s'
          | false ↦ (s', (file, answered addr))
        ]
      ]

  -- The state after so many polls.
  unfoldable pub after_polls : ℕ → b.State → b.State
  after_polls zero s = s
  after_polls (suc k) s = after_polls k (b.getblockchaininfo s).0

  -- What the poll after so many others answers.
  abbrev pub poll : ℕ → b.State → Reply Bool
  poll k s = (b.getblockchaininfo (after_polls k s)).1

  -- An answer after which the wait goes on: the node is in its initial download, or the call raised
  -- one of the failures that are passed over.
  abbrev pub GoesOn : Reply Bool → Type 0
  GoesOn (answered syncing) = syncing ≡ true
  GoesOn (failed e) = is_passed e ≡ true

  -- The poll number `k` is the first that does not make the wait go on; it finds the node synced, and
  -- leaves it at `s'`.
  abbrev pub SyncedAt : ℕ → b.State → b.State → Type 0
  SyncedAt k s s' =
      (poll k s ≡ answered false)
      × (after_polls (suc k) s ≡ s')
      × ((j : ℕ) → j < k → GoesOn (poll j s))

  later_SyncedAt :
      (k : ℕ) (s s' : b.State)
      → GoesOn (b.getblockchaininfo s).1
      → SyncedAt k (b.getblockchaininfo s).0 s'
      → SyncedAt (suc k) s s'
  unfolding after_polls
  later_SyncedAt k s s' h (synced, state, before) = (synced, state, earlier)
    where
      earlier : (j : ℕ) → j < suc k → GoesOn (poll j s)
      earlier zero l = h
      earlier (suc j) l = before j (omega (arith, l))

  ready-SyncedAt :
      (n : ℕ) (s s' : b.State)
      → wait_for_synced_node n s ≡ ready s'
      → (k : ℕ) × (k < n) × SyncedAt k s s'
  unfolding wait_for_synced_node after_polls
  ready-SyncedAt zero s s' h = cc
  ready-SyncedAt (suc n) s s' h =
      let next = (b.getblockchaininfo s).0 in
      elim (Reply-cases (b.getblockchaininfo s).1) [
        | inl (e, q) ↦ elim (Bool-cases (is_passed e)) [
          | inl t ↦
              let (k, small, at) = ready-SyncedAt n next s' (ground arith) in
              (suc k, omega (arith, small), later_SyncedAt k s s' (subst GoesOn (sym q) t) at)
          | inr f ↦ absurd (ground arith)
        ]
        | inr (syncing, q) ↦ elim (Bool-cases syncing) [
          | inl t ↦
              let (k, small, at) = ready-SyncedAt n next s' (ground arith) in
              (suc k, omega (arith, small), later_SyncedAt k s s' (subst GoesOn (sym q) t) at)
          | inr f ↦
              let same : next ≡ s' = ground arith in
              (0, omega arith, (ground arith, same, λ j l. absurd (omega (arith, l))))
        ]
      ]

  SyncedAt-ready :
      (k n : ℕ) (s s' : b.State) → k < n → SyncedAt k s s' → wait_for_synced_node n s ≡ ready s'
  unfolding wait_for_synced_node after_polls
  SyncedAt-ready k zero s s' small at = absurd (omega (arith, small))
  SyncedAt-ready zero (suc n) s s' small (synced, state, before) = ground arith
  SyncedAt-ready (suc k) (suc n) s s' small (synced, state, before) =
      let next = (b.getblockchaininfo s).0 in
      let rest =
        SyncedAt-ready k n next s' (omega (arith, small))
          (synced, state, λ j l. before (suc j) (omega (arith, l))) in
      let goes_on = before 0 (omega arith) in
      elim (Reply-cases (b.getblockchaininfo s).1) [
        | inl (e, q) ↦ let t : is_passed e ≡ true = subst GoesOn q goes_on in ground (arith, rest)
        | inr (syncing, q) ↦ let t : syncing ≡ true = subst GoesOn q goes_on in ground (arith, rest)
      ]

  -- In so many rounds the wait returns with the node at `s'` exactly when one of as many polls finds the
  -- node out of its initial download and leaves it at `s'`, and every poll before it found the node in
  -- that download or raised one of the failures that are passed over.
  pub wait_for_synced_node_iff :
      (n : ℕ) (s s' : b.State)
      → (wait_for_synced_node n s ≡ ready s') ↔ ((k : ℕ) × (k < n) × SyncedAt k s s')
  wait_for_synced_node_iff n s s' =
      (ready-SyncedAt n s s', λ (k, small, at). SyncedAt-ready k n s s' small at)

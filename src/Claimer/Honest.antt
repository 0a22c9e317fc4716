-- ===== src/Claimer/Honest.antt =====
-- What the claimer (argus/claimer_src/claim.py) submits and counts.
use mathlib.Core.Path.{subst}
use bitcoin_argus.Common.{
  ℕ, zero, suc, ◌+◌, ◌-◌, ◌≤◌, ◌≡◌, ◌∙◌, refl, ap, sym, String, Option, none, some, List, arith,
  leb, All, inl, inr, Bool-cases,
}
use bitcoin_argus.Common.Float.{Float}
use bitcoin_argus.Common.Table.{count}
use bitcoin_argus.Claimer.{Reply-cases, System, Settings}
use bitcoin_argus.Claimer.Turns.{
  Counters, World, Turn, running, crashed, try_claim_one, claim_blocks, maybe_forward, write_status,
  count_forward, turn, turns, count_claim,
}
use bitcoin_argus.Claimer.Eligible.{
  Eligible, accepted, gained, AllEligible, try_claim_one-gained, try_claim_one-AllEligible,
}
use bitcoin_argus.Claimer.Forward.{maybe_forward-submitted, write_status-submitted}

count_forward-claimed : (t : Option String) (c : Counters) → (count_forward t c).claimed ≡ c.claimed
count_forward-claimed none c = refl
count_forward-claimed (some t) c = refl

module _ {fl : Float} {sys : System fl} (cfg : Settings fl) (reward_spk : List ℕ) where
  -- What a run of claims leaves: blocks that may be submitted, and a count that grew by the blocks
  -- that were accepted and by no more than the bound.
  record Claimed (left : ℕ) (w : World sys) (c : Counters) (w' : World sys) (c' : Counters)
      : Type 0 where
    eligible : AllEligible cfg reward_spk w → AllEligible cfg reward_spk w'
    counted : accepted w' + c.claimed ≡ accepted w + c'.claimed
    grown : c.claimed ≤ c'.claimed
    bounded : c'.claimed ≤ c.claimed + left

  claim_blocks-Claimed :
      (left : ℕ) (w : World sys) (c : Counters)
      → Claimed left w c
          (claim_blocks left cfg reward_spk w c).0
          (claim_blocks left cfg reward_spk w c).1
  unfolding claim_blocks
  claim_blocks-Claimed zero w c = record {
    eligible = λ h. h;
    counted = refl;
    grown = omega arith;
    bounded = omega arith;
  }
  claim_blocks-Claimed (suc left) w c =
      let tried = try_claim_one cfg reward_spk w in
      let gain : accepted tried.0 ≡ accepted w + gained tried.1 =
        try_claim_one-gained cfg reward_spk w in
      elim (Reply-cases tried.1) [
        | inl (e, q) ↦ rw (q, claim_blocks) (stop (ground arith))
        | inr (b, q) ↦ elim (Bool-cases b) [
          | inl t ↦
              rw (q, t, claim_blocks)
                (continue (claim_blocks-Claimed left tried.0 (count_claim tried.0 c))
                  (ground arith))
          | inr f ↦ rw (q, f, claim_blocks) (stop (ground arith))
        ]
      ]
    where
      stop :
          accepted (try_claim_one cfg reward_spk w).0 ≡ accepted w
          → Claimed (suc left) w c (try_claim_one cfg reward_spk w).0 c
      stop h = record {
        eligible = try_claim_one-AllEligible cfg reward_spk w;
        counted = omega (arith, h);
        grown = omega arith;
        bounded = omega arith;
      }

      continue :
          {w' : World sys} {c' : Counters}
          → Claimed left
              (try_claim_one cfg reward_spk w).0
              (count_claim (try_claim_one cfg reward_spk w).0 c)
              w'
              c'
          → accepted (try_claim_one cfg reward_spk w).0 ≡ accepted w + 1
          → Claimed (suc left) w c w' c'
      continue more h = record {
        eligible = λ e. more.eligible (try_claim_one-AllEligible cfg reward_spk w e);
        counted = omega (arith, h, more.counted);
        grown = omega (arith, more.grown);
        bounded = omega (arith, more.bounded);
      }

  -- The world of a turn's result.
  abbrev pub world_of : Turn sys → World sys
  world_of (running w c last_status) = w
  world_of (crashed w) = w

  -- While the program runs its count of claims is the number of blocks accepted since `base` of them were.
  abbrev pub Counted : ℕ → Turn sys → Type 0
  Counted base (running w c last_status) = accepted w ≡ base + c.claimed
  Counted base (crashed w) = Unit

  abbrev pub Honest : ℕ → Turn sys → Type 0
  Honest base t = AllEligible cfg reward_spk (world_of t) × Counted base t

  turn-Honest :
      (base : ℕ) (w : World sys) (c : Counters) (last_status : ℕ)
      → Honest base (running w c last_status)
      → Honest base (turn cfg reward_spk w c last_status)
  unfolding turn
  turn-Honest base w c last_status h =
      let run = claim_blocks cfg.max_blocks_per_run cfg reward_spk w c in
      let claimed = claim_blocks-Claimed cfg.max_blocks_per_run w c in
      let w'' = (maybe_forward cfg run.0).0 in
      let same : w''.submitted ≡ run.0.submitted = maybe_forward-submitted cfg run.0 in
      let eligible : AllEligible cfg reward_spk w'' =
        subst (All (Eligible sys cfg reward_spk)) (sym same) (claimed.eligible h.0) in
      elim (Reply-cases (maybe_forward cfg run.0).1) [
        | inl (e, q) ↦ rw (q, turn) (eligible, tt)
        | inr (txid, q) ↦
            let c'' = count_forward txid run.1 in
            let counted : accepted w'' ≡ base + c''.claimed =
              ap (count (λ s. s.accepted)) same
              ∙ omega (arith, claimed.counted, h.1, count_forward-claimed txid run.1) in
            let kept : (write_status cfg c'' w'').submitted ≡ w''.submitted =
              write_status-submitted cfg c'' w'' in
            elim (Bool-cases (leb cfg.status_interval (sys.time w''.system - last_status))) [
              | inl l ↦
                  rw (q, l, turn)
                    (
                      subst (All (Eligible sys cfg reward_spk)) (sym kept) eligible,
                      ap (count (λ s. s.accepted)) kept ∙ counted,
                    )
              | inr l ↦ rw (q, l, turn) (eligible, counted)
            ]
      ]

  -- Through any number of turns every block that is submitted has a hash that meets the target of its
  -- bits, is no harder than the limit and pays the wallet; and while the program runs its count of claims
  -- has grown by the number of submissions that were answered without a rejection.
  pub turns-Honest :
      (n base : ℕ) (t : Turn sys) → Honest base t → Honest base (turns n cfg reward_spk t)
  unfolding turns
  turns-Honest zero base t h = h
  turns-Honest (suc n) base (crashed w) h = h
  turns-Honest (suc n) base (running w c last_status) h =
      turns-Honest n base (turn cfg reward_spk w c last_status) (turn-Honest base w c last_status h)

  -- The claims of one turn are at most the bound.
  pub claim_blocks_bounded :
      (left : ℕ) (w : World sys) (c : Counters)
      → (accepted (claim_blocks left cfg reward_spk w c).0 ≤ accepted w + left)
        × (accepted w ≤ accepted (claim_blocks left cfg reward_spk w c).0)
        × ((claim_blocks left cfg reward_spk w c).1.claimed + accepted w
            ≡ c.claimed + accepted (claim_blocks left cfg reward_spk w c).0)
  claim_blocks_bounded left w c =
      let run = claim_blocks-Claimed left w c in
      (
        omega (arith, run.counted, run.bounded),
        omega (arith, run.counted, run.grown),
        omega (arith, run.counted),
      )

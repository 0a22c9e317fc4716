-- ===== src/Claimer/Grind.antt =====
-- The search for a nonce (`_grind` of argus/claimer_src/claim.py).
use mathlib.Core.Path.{subst}
use bitcoin_argus.Common.{
  ℕ, zero, suc, ◌+◌, ◌≤◌, ◌<◌, ◌≡◌, refl, true, some, arith, inl, inr, Bool-cases,
}
use bitcoin_argus.Common.Float.{Float}
use bitcoin_argus.Claimer.{
  Target, meets, Reply-cases, Block, answered, System, grind_from, grind, with_time, with_nonce,
  grind_time_bumps,
}

-- A block that was ground from another: its hash meets the target, its time is one of the tries', and
-- only the time and the nonce are new.
pub record Solved {fl : Float} (sys : System fl) (block : Block) (target : Target) (first limit : ℕ)
    (b : Block) : Type 0 where
  pub work : meets (sys.sha256 b.header) target ≡ true
  pub not_before : first ≤ b.header.time
  pub before : b.header.time < limit
  pub rest : with_nonce b.header.nonce (with_time b.header.time block) ≡ b

module _ {fl : Float} (sys : System fl) where
  grind_from-Solved :
      (tries bump base_time : ℕ) (block : Block) (target : Target) (s : sys.State) (b : Block)
      → (grind_from sys tries bump base_time block target s).1 ≡ answered (some b)
      → Solved sys block target (base_time + bump) (base_time + bump + tries) b
  unfolding grind_from
  grind_from-Solved zero bump base_time block target s b h = cc
  grind_from-Solved (suc tries) bump base_time block target s b h =
      let timed = with_time (base_time + bump) block in
      elim (Reply-cases (sys.grind timed.header s).1) [
        | inl (e, q) ↦ absurd (ground (arith))
        | inr (nonce, q) ↦
            elim (Bool-cases (meets (sys.sha256 (with_nonce nonce timed).header) target)) [
              | inl m ↦
                  subst (Solved sys block target (base_time + bump) (base_time + bump + suc tries))
                    (ground (arith))
                    (record {
                      work = m;
                      not_before = omega arith;
                      before = omega arith;
                      rest = refl;
                    })
              | inr m ↦
                  let later =
                    grind_from-Solved tries (suc bump) base_time (with_nonce nonce timed) target
                      (sys.grind timed.header s).0 b (ground arith) in
                  record {
                    work = later.work;
                    not_before = omega (arith, later.not_before);
                    before = omega (arith, later.before);
                    rest = later.rest;
                  }
            ]
      ]

  -- A block that the search finds is solved, at one of the 120 times from the block's own on.
  pub grind-Solved :
      (block : Block) (target : Target) (s : sys.State) (b : Block)
      → (grind sys block target s).1 ≡ answered (some b)
      → Solved sys block target block.header.time (block.header.time + grind_time_bumps) b
  unfolding grind
  grind-Solved block target s b h =
      let found = grind_from-Solved grind_time_bumps 0 block.header.time block target s b h in
      record {
        work = found.work;
        not_before = omega (arith, found.not_before);
        before = omega (arith, found.before);
        rest = found.rest;
      }

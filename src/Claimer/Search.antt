-- ===== src/Claimer/Search.antt =====
-- Why the search for a nonce ends as it does (`_grind` of argus/claimer_src/claim.py).
use mathlib.Core.Path.{subst}
use bitcoin_argus.Common.{
  ℕ, zero, suc, ◌+◌, ◌≤◌, ◌<◌, ◌≡◌, refl, sym, false, Option, none, some, arith, ◌==◌, inl, inr,
  Bool-cases,
}
use bitcoin_argus.Common.Float.{Float}
use bitcoin_argus.Claimer.{
  Target, meets, Reply, Reply-cases, Failure, Block, answered, failed, System, grind_from, grind,
  with_time, with_nonce, grind_time_bumps,
}
use bitcoin_argus.Claimer.Grind.{Solved}

module _ {fl : Float} (sys : System fl) where
  -- The search asked the grinder at this time, and the nonce that it answered missed the target.
  abbrev pub Missed : Block → Target → ℕ → Type 0
  Missed block target time =
      (n m : ℕ) × (s : sys.State) × ((sys.grind (with_nonce n (with_time time block)).header s).1
        ≡ answered m)
      × (meets (sys.sha256 (with_nonce m (with_time time block)).header) target ≡ false)

  -- The grinder failed at this time.
  abbrev pub Stuck : Block → ℕ → Failure → Type 0
  Stuck block time e =
      (n : ℕ) × (s : sys.State) × ((sys.grind (with_nonce n (with_time time block)).header s).1
        ≡ failed e)

  -- All times from `first` on before `limit` were missed.
  abbrev pub AllMissed : Block → Target → ℕ → ℕ → Type 0
  AllMissed block target first limit =
      (time : ℕ) → first ≤ time → time < limit → Missed block target time

  -- Why a search over the times from `first` on before `limit` ends as it does.
  abbrev pub Explained : Block → Target → ℕ → ℕ → Reply (Option Block) → Type 0
  Explained block target first limit (answered (some b)) =
      Solved sys block target first limit b × AllMissed block target first b.header.time
  Explained block target first limit (answered none) = AllMissed block target first limit
  Explained block target first limit (failed e) =
      (time : ℕ) × (first ≤ time)
      × (time < limit)
      × Stuck block time e
      × AllMissed block target first time

  -- A missed time before those that were missed.
  AllMissed-suc :
      (block : Block) (target : Target) (first limit : ℕ)
      → Missed block target first
      → AllMissed block target (suc first) limit
      → AllMissed block target first limit
  AllMissed-suc block target first limit m ms time lo hi = elim (Bool-cases (time == first)) [
    | inl e ↦ let same : first ≡ time = ground arith in subst (Missed block target) same m
    | inr e ↦ ms time (ground arith) hi
  ]

  later_Explained :
      (block : Block) (n t : ℕ) (target : Target) (first limit : ℕ) (r : Reply (Option Block))
      → Missed block target first
      → Explained (with_nonce n (with_time t block)) target (suc first) limit r
      → Explained block target first limit r
  later_Explained block n t target first limit (answered (some b)) m (solved, ms) = (
    record {
      work = solved.work;
      not_before = omega (arith, solved.not_before);
      before = solved.before;
      rest = solved.rest;
    },
    AllMissed-suc block target first b.header.time m ms,
  )
  later_Explained block n t target first limit (answered none) m ms =
      AllMissed-suc block target first limit m ms
  later_Explained block n t target first limit (failed e) m (time, lo, hi, stuck, ms) =
      (time, omega (arith, lo), hi, stuck, AllMissed-suc block target first time m ms)

  grind_from-Explained :
      (tries bump base_time : ℕ) (block : Block) (target : Target) (s : sys.State)
      → Explained block target
          (base_time + bump)
          (base_time + bump + tries)
          (grind_from sys tries bump base_time block target s).1
  unfolding grind_from
  grind_from-Explained zero bump base_time block target s =
      λ time lo hi. absurd (omega (arith, lo, hi))
  grind_from-Explained (suc tries) bump base_time block target s =
      let timed = with_time (base_time + bump) block in
      let first = base_time + bump in
      let limit = base_time + bump + suc tries in
      let none_before : AllMissed block target first first =
        λ time lo hi. absurd (omega (arith, lo, hi)) in
      let result = (grind_from sys (suc tries) bump base_time block target s).1 in
      elim (Reply-cases (sys.grind timed.header s).1) [
        | inl (e, q) ↦
            let ends : result ≡ failed e = ground arith in
            subst (Explained block target first limit) (sym ends)
              (first, omega arith, omega arith, (block.header.nonce, s, q), none_before)
        | inr (nonce, q) ↦
            elim (Bool-cases (meets (sys.sha256 (with_nonce nonce timed).header) target)) [
              | inl m ↦
                  let ends : result ≡ answered (some (with_nonce nonce timed)) = ground arith in
                  subst (Explained block target first limit) (sym ends) (
                    record {
                      work = m;
                      not_before = omega arith;
                      before = omega arith;
                      rest = refl;
                    },
                    none_before,
                  )
              | inr m ↦
                  let rest =
                    grind_from sys tries (suc bump) base_time (with_nonce nonce timed) target
                      (sys.grind timed.header s).0 in
                  let ends : result ≡ rest.1 = ground arith in
                  let later =
                    grind_from-Explained tries (suc bump) base_time (with_nonce nonce timed) target
                      (sys.grind timed.header s).0 in
                  let start : base_time + suc bump ≡ suc first = omega arith in
                  let end : base_time + suc bump + tries ≡ limit = omega arith in
                  subst (Explained block target first limit) (sym ends) (
                    later_Explained block nonce first target first limit rest.1
                      (block.header.nonce, nonce, s, q, m)
                      (subst (λ f. Explained (with_nonce nonce timed) target f limit rest.1) start
                        (subst
                          (λ l.
                            Explained (with_nonce nonce timed) target (base_time + suc bump) l
                              rest.1)
                          end later)))
            ]
      ]

  -- A search that finds a block has a solved one, and missed at every earlier time; one that finds none
  -- missed at each of the 120 times from the block's own on; and one that raises stopped at a time at
  -- which the grinder failed, having missed at every earlier one.
  pub grind-Explained :
      (block : Block) (target : Target) (s : sys.State)
      → Explained block target block.header.time
          (block.header.time + grind_time_bumps)
          (grind sys block target s).1
  unfolding grind
  grind-Explained block target s =
      let found = grind_from-Explained grind_time_bumps 0 block.header.time block target s in
      let start : block.header.time + 0 ≡ block.header.time = omega arith in
      subst
        (λ first.
          Explained block target first (first + grind_time_bumps) (grind sys block target s).1)
        start found

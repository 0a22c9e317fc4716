-- ===== src/Claimer/Eligible.antt =====
-- One attempt of the claimer (argus/claimer_src/claim.py): the blocks that it may submit.
use mathlib.Core.Path.{subst}
use bitcoin_argus.Common.{
  ℕ, ◌+◌, ◌≡◌, ◌∙◌, ap, sym, Bool, true, false, none, some, List, ◌∷◌, arith, str_eq, All, inl, inr,
  Bool-cases, Option-cases,
}
use bitcoin_argus.Common.Float.{Float}
use bitcoin_argus.Common.Table.{count}
use bitcoin_argus.Claimer.{
  meets, nbits_to_target, target_to_difficulty, is_above, Template, Block, Reply, answered,
  Reply-cases, System, Settings, grind, build_block,
}
use bitcoin_argus.Claimer.Grind.{grind-Solved}
use bitcoin_argus.Claimer.Turns.{Submission, World, at_system, submit, try_claim_one}

-- A block that the claimer may submit: its hash meets the target of its own bits, which are no harder
-- than the limit, and its first output pays the wallet.
pub record Eligible {fl : Float} (sys : System fl) (cfg : Settings fl) (reward_spk : List ℕ)
    (s : Submission) : Type 0 where
  pub work : meets (sys.sha256 s.block.header) (nbits_to_target s.block.header.bits) ≡ true
  pub easy :
      is_above fl (target_to_difficulty fl (nbits_to_target s.block.header.bits)) cfg.max_difficulty
      ≡ false
  pub pays :
      (value : ℕ) × (rest : List (ℕ × List ℕ)) × (s.block.coinbase.outputs
        ≡ (value, reward_spk) ∷ rest)

abbrev pub accepted : {fl : Float} {sys : System fl} → World sys → ℕ
accepted w = count (λ s. s.accepted) w.submitted

-- What an attempt adds to the count of claims.
abbrev pub gained : Reply Bool → ℕ
gained (answered true) = 1
gained _ = 0

module _ {fl : Float} {sys : System fl} (cfg : Settings fl) (reward_spk : List ℕ) where
  submit-gained :
      (b : Block) (w : World sys) → accepted (submit b w).0 ≡ accepted w + gained (submit b w).1
  unfolding submit
  submit-gained b w = elim (Reply-cases (sys.submitblock b w.system).1) [
    | inl (e, q) ↦ ground arith
    | inr (reject, q) ↦ ground arith
  ]

  pub try_claim_one-gained :
      (w : World sys)
      → accepted (try_claim_one cfg reward_spk w).0
        ≡ accepted w + gained (try_claim_one cfg reward_spk w).1
  unfolding try_claim_one
  try_claim_one-gained w = elim (Reply-cases (sys.getblocktemplate w.system).1) [
    | inl (e, q) ↦ ground arith
    | inr (tmpl, q) ↦
        let s = (sys.getblocktemplate w.system).0 in
        let target = nbits_to_target tmpl.bits in
        let found = grind sys (build_block sys tmpl reward_spk) target s in
        elim (Bool-cases (is_above fl (target_to_difficulty fl target) cfg.max_difficulty)) [
          | inl a ↦ ground arith
          | inr a ↦ elim (Reply-cases found.1) [
            | inl (e, f) ↦ ground arith
            | inr (o, f) ↦ elim (Option-cases o) [
              | inl n ↦ ground arith
              | inr (b, n) ↦ ground (arith, submit-gained b (at_system found.0 w))
            ]
          ]
        ]
  ]

  abbrev pub AllEligible : World sys → Type 0
  AllEligible w = All (Eligible sys cfg reward_spk) w.submitted

  submit-AllEligible :
      (b : Block) (w : World sys)
      → ((a : Bool) → Eligible sys cfg reward_spk (record { block = b; accepted = a }))
      → AllEligible w
      → AllEligible (submit b w).0
  unfolding submit
  submit-AllEligible b w e h = elim (Reply-cases (sys.submitblock b w.system).1) [
    | inl (x, q) ↦ rw (q, submit) (e false, h)
    | inr (reject, q) ↦
        rw (q, submit) (e (elim reject [ none ↦ true | some text ↦ str_eq text "" ]), h)
  ]

  solved-Eligible :
      (tmpl : Template) (s : sys.State) (b : Block)
      → is_above fl (target_to_difficulty fl (nbits_to_target tmpl.bits)) cfg.max_difficulty ≡ false
      → (grind sys (build_block sys tmpl reward_spk) (nbits_to_target tmpl.bits) s).1
        ≡ answered (some b)
      → (a : Bool) → Eligible sys cfg reward_spk (record { block = b; accepted = a })
  unfolding build_block
  solved-Eligible tmpl s b easy found a =
      let solved =
        grind-Solved sys (build_block sys tmpl reward_spk) (nbits_to_target tmpl.bits) s b found in
      let bits : tmpl.bits ≡ b.header.bits = ap (λ x. x.header.bits) solved.rest in
      record {
        work = subst (λ n. meets (sys.sha256 b.header) (nbits_to_target n) ≡ true) bits solved.work;
        easy =
            subst
              (λ n.
                is_above fl (target_to_difficulty fl (nbits_to_target n)) cfg.max_difficulty
                ≡ false)
              bits easy;
        pays = (tmpl.coinbasevalue, _, ap (λ x. x.coinbase.outputs) (sym solved.rest));
      }

  pub try_claim_one-AllEligible :
      (w : World sys) → AllEligible w → AllEligible (try_claim_one cfg reward_spk w).0
  unfolding try_claim_one
  try_claim_one-AllEligible w h = elim (Reply-cases (sys.getblocktemplate w.system).1) [
    | inl (e, q) ↦ rw (q, try_claim_one) h
    | inr (tmpl, q) ↦
        let s = (sys.getblocktemplate w.system).0 in
        let target = nbits_to_target tmpl.bits in
        let found = grind sys (build_block sys tmpl reward_spk) target s in
        elim (Bool-cases (is_above fl (target_to_difficulty fl target) cfg.max_difficulty)) [
          | inl a ↦ rw (q, a, try_claim_one) h
          | inr a ↦ elim (Reply-cases found.1) [
            | inl (e, f) ↦ rw (q, a, f, try_claim_one) h
            | inr (o, f) ↦ elim (Option-cases o) [
              | inl n ↦ rw (q, a, f, n, try_claim_one) h
              | inr (b, n) ↦
                  rw (q, a, f, n, try_claim_one)
                    (submit-AllEligible b (at_system found.0 w)
                      (solved-Eligible tmpl s b a (f ∙ ap answered (n))) h)
            ]
          ]
        ]
  ]

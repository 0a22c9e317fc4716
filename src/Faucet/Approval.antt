-- ===== src/Faucet/Approval.antt =====
-- The approval policies of argus/faucet/approval.py: the registry, and the policy `max_one_btc`.
-- `float(amount_raw)` is given by what it makes of the text.
use bitcoin_argus.Common.{
  String, ◌≡◌, refl, inl, inr, Bool, true, false, not, Option, none, some, List, [], ◌∷◌, ◌++◌,
  arith, if◌then◌else◌, is_some, str_eq, str_eq_iff, Bool-cases, Option-cases,
}
use bitcoin_argus.Common.Float.{Float}

pub record FaucetDecision : Type 0 where
  pub approved : Bool
  pub reason : String

-- What `float(text)` yields: it raises, or it is no finite number, or its sign and its size.
pub data Parsed (fl : Float) : Type 0 where
  raises : Parsed fl
  not_finite : Parsed fl
  below_zero : Parsed fl
  size : fl.Carrier → Parsed fl

module _ (fl : Float) where
  open fl use {Carrier, of_nat, lt}

  unfoldable pub max_one_btc : Parsed fl → FaucetDecision
  max_one_btc raises = record {
    approved = false;
    reason = "The requested amount must be a number.";
  }
  max_one_btc not_finite = record {
    approved = false;
    reason = "The requested amount must be a finite number.";
  }
  max_one_btc below_zero = record {
    approved = false;
    reason = "The requested amount must be greater than zero.";
  }
  max_one_btc (size amount) =
      if not (lt (of_nat 0) amount)
      then record { approved = false; reason = "The requested amount must be greater than zero." }
      else if not (lt amount (of_nat 1))
      then record { approved = false; reason = "You may only request less than 1 BTC at a time." }
      else record { approved = true; reason = "Approved." }

  -- The policy approves exactly the finite amounts above zero and below one.
  pub max_one_btc_approves :
      (p : Parsed fl)
      → (max_one_btc p).approved
        ≡ elim p [ size a ↦ if lt (of_nat 0) a then lt a (of_nat 1) else false | _ ↦ false ]
  unfolding max_one_btc
  max_one_btc_approves raises = refl
  max_one_btc_approves not_finite = refl
  max_one_btc_approves below_zero = refl
  max_one_btc_approves (size a) = ground arith

-- A registered policy.
pub record ApprovalFunction (A : Type 0) : Type 0 where
  pub name : String
  pub explanation : String
  pub func : A

module _ {A : Type 0} where
  unfoldable pub get : String → List (ApprovalFunction A) → Option (ApprovalFunction A)
  get name [] = none
  get name (f ∷ fs) = if str_eq f.name name then some f else get name fs

  unfoldable pub is_registered : String → List (ApprovalFunction A) → Bool
  unfolding get
  is_registered name registry = is_some (get name registry)

  -- None stands for the error of a name that is taken.
  unfoldable pub register :
      String → String → A → List (ApprovalFunction A) → Option (List (ApprovalFunction A))
  unfolding is_registered
  register name explanation fn registry =
      if is_registered name registry
      then none
      else some (registry ++ record { name = name; explanation = explanation; func = fn } ∷ [])

  get-snoc :
      (k : String) (fs : List (ApprovalFunction A)) (f : ApprovalFunction A)
      → get k (fs ++ f ∷ [])
        ≡ elim (get k fs) [ none ↦ if str_eq f.name k then some f else none | some g ↦ some g ]
  unfolding get
  get-snoc k [] f = refl
  get-snoc k (g ∷ fs) f = ground (arith, get-snoc k fs f)

  -- After a registration the name finds the new function and every other name what it found
  -- before; a name that is taken cannot be registered.
  pub get-register :
      (name explanation : String) (fn : A) (registry : List (ApprovalFunction A))
      → ((registry' : List (ApprovalFunction A)) (k : String)
          → register name explanation fn registry ≡ some registry'
          → get k registry' ≡ (
              if str_eq name k
              then some (record { name = name; explanation = explanation; func = fn })
              else get k registry))
        × (is_registered name registry ≡ true → register name explanation fn registry ≡ none)
  unfolding register
  get-register name explanation fn registry = (
    λ registry' k e.
        let new : ApprovalFunction A = record {
          name = name;
          explanation = explanation;
          func = fn;
        } in
        let q : registry ++ new ∷ [] ≡ registry' = ground arith in
        let absent : get name registry ≡ none = elim (Option-cases (get name registry)) [
          | inl a ↦ a
          | inr (g, f) ↦ absurd (ground arith)
        ] in
        rw (← q, get-snoc k registry new)
          (elim (Bool-cases (str_eq name k)) [
            | inl s ↦
                let n : name ≡ k = (str_eq_iff name k).0 s in
                let a : get k registry ≡ none = rw (← n) absent in rw (a, s)
            | inr s ↦
                rw s
                  (elim (Option-cases (get k registry)) [ inl a ↦ rw (a, s) | inr (g, a) ↦ rw a ])
          ]),
    λ h. rw h,
  )

-- ===== src/Claimer/Forward.antt =====
-- What forwarding and the status (argus/claimer_src/claim.py) leave of the record.
use bitcoin_argus.Common.{
  ◌≤◌, ◌≡◌, ◌∙◌, refl, String, true, Option, some, ◌∷◌, arith, ◌⊎◌, ltb, inl, inr, Bool-cases,
  Option-cases,
}
use bitcoin_argus.Common.Float.{Float}
use bitcoin_argus.Claimer.{Reply, answered, failed, rpc_error, Reply-cases, System, Settings}
use bitcoin_argus.Claimer.Turns.{
  Counters, World, at_system, sats, is_text, sweep, maybe_forward, write_status,
}

module _ {fl : Float} {sys : System fl} (cfg : Settings fl) where
  pub maybe_forward-submitted : (w : World sys) → (maybe_forward cfg w).0.submitted ≡ w.submitted
  unfolding maybe_forward sweep
  maybe_forward-submitted w = elim (Bool-cases cfg.forward) [
    | inl e ↦ elim (Option-cases (sys.lnd_address w.system)) [
      | inl n ↦ rw (e, n, maybe_forward) refl
      | inr (dest, n) ↦ elim (Bool-cases (is_text dest)) [
        | inl t ↦ elim (Reply-cases (sys.getbalance w.system).1) [
          | inl (x, q) ↦ rw (e, n, t, q, maybe_forward) refl
          | inr (b, q) ↦ elim (Bool-cases (ltb (sats fl b) cfg.forward_threshold_sat)) [
            | inl l ↦ rw (e, n, t, q, l, maybe_forward) refl
            | inr l ↦
                rw (e, n, t, q, l, maybe_forward)
                  (sweep-submitted dest (at_system (sys.getbalance w.system).0 w))
          ]
        ]
        | inr t ↦ rw (e, n, t, maybe_forward) refl
      ]
    ]
    | inr e ↦ rw (e, maybe_forward) refl
  ]
    where
      of_reply :
          (dest : String) (w : World sys) (r : Reply (Option String))
          → (sys.sendall dest w.system).1 ≡ r
          → (sweep dest w).0.submitted ≡ w.submitted
      of_reply dest w (answered t) q = rw (q, sweep) refl
      of_reply dest w (failed rpc_error) q = rw (q, sweep) refl
      of_reply dest w (failed _) q = rw (q, sweep) refl

      sweep-submitted : (dest : String) (w : World sys) → (sweep dest w).0.submitted ≡ w.submitted
      sweep-submitted dest w = of_reply dest w (sys.sendall dest w.system).1 refl

  pub write_status-submitted :
      (c : Counters) (w : World sys) → (write_status cfg c w).submitted ≡ w.submitted
  unfolding write_status
  write_status-submitted c w = elim (Reply-cases (sys.getblockchaininfo w.system).1) [
    | inl (x, q) ↦ ground arith
    | inr (i, q) ↦ elim (Reply-cases (sys.getbalance (sys.getblockchaininfo w.system).0).1) [
      | inl (x, p) ↦ ground arith
      | inr (b, p) ↦ ground arith
    ]
  ]

  -- The only sweep that a call makes.
  pub record Swept (w w' : World sys) : Type 0 where
    pub dest : String
    pub balance : fl.Carrier
    pub enabled : cfg.forward ≡ true
    pub address : sys.lnd_address w.system ≡ some dest
    pub nonempty : is_text dest ≡ true
    pub read : (sys.getbalance w.system).1 ≡ answered balance
    pub enough : cfg.forward_threshold_sat ≤ sats fl balance
    pub made : w'.swept ≡ dest ∷ w.swept

  sweep-swept :
      (dest : String) (w : World sys) (r : Reply (Option String))
      → (sys.sendall dest w.system).1 ≡ r
      → ((sweep dest w).0.swept ≡ w.swept) ⊎ ((sweep dest w).0.swept ≡ dest ∷ w.swept)
  unfolding sweep
  sweep-swept dest w (answered t) q = inr (rw (q, sweep) refl)
  sweep-swept dest w (failed rpc_error) q = inl (rw (q, sweep) refl)
  sweep-swept dest w (failed _) q = inl (rw (q, sweep) refl)

  -- A call sweeps nothing, or it sweeps to the address in the file, with forwarding on and a balance that
  -- was read and is no less than the threshold.
  pub maybe_forward-swept :
      (w : World sys) → ((maybe_forward cfg w).0.swept ≡ w.swept) ⊎ Swept w (maybe_forward cfg w).0
  unfolding maybe_forward
  maybe_forward-swept w = elim (Bool-cases cfg.forward) [
    | inl e ↦ elim (Option-cases (sys.lnd_address w.system)) [
      | inl n ↦ inl (rw (e, n, maybe_forward) refl)
      | inr (dest, n) ↦ elim (Bool-cases (is_text dest)) [
        | inl t ↦ elim (Reply-cases (sys.getbalance w.system).1) [
          | inl (x, q) ↦ inl (rw (e, n, t, q, maybe_forward) refl)
          | inr (b, q) ↦ elim (Bool-cases (ltb (sats fl b) cfg.forward_threshold_sat)) [
            | inl l ↦ inl (rw (e, n, t, q, l, maybe_forward) refl)
            | inr l ↦
                let w' = at_system (sys.getbalance w.system).0 w in
                let opened : (maybe_forward cfg w).0.swept ≡ (sweep dest w').0.swept =
                  rw (e, n, t, q, l, maybe_forward) refl in
                elim (sweep-swept dest w' (sys.sendall dest w'.system).1 refl) [
                  | inl same ↦ inl (opened ∙ same)
                  | inr made ↦ inr (record {
                    dest = dest;
                    balance = b;
                    enabled = e;
                    address = n;
                    nonempty = t;
                    read = q;
                    enough = ground arith;
                    made = opened ∙ made;
                  })
                ]
          ]
        ]
        | inr t ↦ inl (rw (e, n, t, maybe_forward) refl)
      ]
    ]
    | inr e ↦ inl (rw (e, maybe_forward) refl)
  ]

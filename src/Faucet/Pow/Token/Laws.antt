-- ===== src/Faucet/Pow/Token/Laws.antt =====
-- What a challenge of argus/faucet/pow.py binds, and how `issue` and `verify` fit together.
use bitcoin_argus.Common.{
  ℕ, ◌+◌, ◌*◌, ◌≤◌, String, ◌≡◌, refl, inl, inr, false, Option, none, some, [], ◌∷◌, ◌++◌, arith,
  ◌==◌, or_else, str_eq_iff, codes_eq, codes_eq→eq, codes_eq_refl, Bool-cases, Option-cases,
}
use bitcoin_argus.Faucet.Clock.{second, whole_seconds}
use bitcoin_argus.Faucet.Pow.Token.{
  Text, Payload, Codec, Challenge, verified, split_dot, issue_payload, issue, verify_payload,
  verify, token_version, differs_text, differs_number,
}

split_dot-join : (p s : Text) → split_dot p ≡ none → split_dot (p ++ b'.' ∷ s) ≡ some (p, s)
unfolding split_dot
split_dot-join [] s h = refl
split_dot-join (c ∷ p) s h = elim (Option-cases (split_dot p)) [
  | inl e ↦ ground (arith, split_dot-join p s e)
  | inr (q, e) ↦ ground arith
]

split_dot_lem : (t p s : Text) → split_dot t ≡ some (p, s) → t ≡ p ++ b'.' ∷ s
unfolding split_dot
split_dot_lem [] p s h = cc
split_dot_lem (c ∷ t) p s h = elim (Bool-cases (c == b'.')) [
  | inl dot ↦
      let e : c ≡ b'.' = ground arith in
      let q : [] ≡ p = ground arith in let r : t ≡ s = ground arith in rw (e, ← q, r)
  | inr other ↦ elim (Option-cases (split_dot t)) [
    | inl e ↦ absurd (ground arith)
    | inr ((p', s'), e) ↦
        let q : c ∷ p' ≡ p = ground arith in
        let r : s' ≡ s = ground arith in rw (← q, ← r, split_dot_lem t p' s' e)
  ]
]

differs_text-eq : (o : Option String) (s : String) → differs_text o s ≡ false → o ≡ some s
differs_text-eq none s h = cc
differs_text-eq (some t) s h = ground (arith, str_eq_iff t s)

differs_number-eq : (o : Option ℕ) (n : ℕ) → differs_number o n ≡ false → o ≡ some n
differs_number-eq none n h = cc
differs_number-eq (some m) n h = ground arith

differs_text_refl : (s : String) → differs_text (some s) s ≡ false
differs_text_refl s = ground (arith, str_eq_iff s s)

-- What a payload that passes the checks says of the request and of the challenge.
pub record Binds (codec : Codec) (p : Payload) (net address : String) (amount now : ℕ)
    (ch : Challenge) : Type 0 where
  pub version : p.v ≡ some token_version
  pub network : (p.net ≡ some net) × (ch.net ≡ net)
  pub destination : (p.addr ≡ some address) × (ch.address ≡ address)
  pub request : (p.amt ≡ some amount) × (ch.amount_sat ≡ amount)
  pub threshold : codec.parse_hex (or_else p.tgt []) ≡ some ch.target
  pub times : (ch.issued_at ≡ or_else p.iat 0) × (ch.ttl ≡ or_else p.ttl 0)
  pub name : ch.nonce ≡ or_else p.non "None"
  pub scheme : ch.algorithm ≡ or_else p.alg "None"
  pub young : now ≤ (ch.issued_at + ch.ttl) * second

module _ (codec : Codec) where
  open codec use {sign, encode, decode, format_hex, parse_hex}

  verify_payload-Binds :
      (p : Payload) (net address : String) (amount now : ℕ) (ch : Challenge)
      → verify_payload codec p net address amount now ≡ verified ch
      → Binds codec p net address amount now ch
  unfolding verify_payload
  verify_payload-Binds p net address amount now ch h =
      elim (Option-cases (parse_hex (or_else p.tgt []))) [
        | inl e ↦ absurd (ground arith)
        | inr (target, e) ↦ ground (
          arith,
          differs_number-eq p.v token_version,
          differs_text-eq p.net net,
          differs_text-eq p.addr address,
          differs_number-eq p.amt amount,
        )
      ]

  -- A challenge that is accepted is a payload with its own signature under the secret, and the
  -- payload binds the request: it names the version, the network, the address and the amount that
  -- are asked for, and its time to live is not over. The challenge holds what the payload says: the
  -- network, the address, the amount, the algorithm, the target, the times and the nonce.
  pub verify-verified :
      (token : Text) (secret net address : String) (amount now : ℕ) (ch : Challenge)
      → verify codec token secret net address amount now ≡ verified ch
      → (payload : Text) × (p : Payload) × (token ≡ payload ++ b'.' ∷ sign payload secret)
        × (decode payload ≡ some p)
        × Binds codec p net address amount now ch
  unfolding verify
  verify-verified token secret net address amount now ch h = elim (Option-cases (split_dot token)) [
    | inl e ↦ absurd (ground arith)
    | inr ((payload, sig), e) ↦ elim (Bool-cases (codes_eq sig (sign payload secret))) [
      | inr bad ↦ absurd (ground arith)
      | inl good ↦ elim (Option-cases (decode payload)) [
        | inl d ↦ absurd (ground arith)
        | inr (p, d) ↦ (
          payload,
          p,
          rw (← codes_eq→eq sig (sign payload secret) good) (split_dot_lem token payload sig e),
          d,
          verify_payload-Binds p net address amount now ch (ground arith),
        )
      ]
    ]
  ]

  -- A challenge that was issued at `now` is accepted for the same request until its time to live is
  -- over, if the codec reads back the payload and the target, and the payload's text has no dot.
  pub verify-issue :
      (secret net address : String) (amount : ℕ) (algorithm : String) (target ttl : ℕ)
      (nonce : String) (now later : ℕ)
      → let p = issue_payload codec net address amount algorithm target ttl nonce now in
        split_dot (encode p) ≡ none
        → decode (encode p) ≡ some p
        → parse_hex (format_hex target) ≡ some target
        → later ≤ (whole_seconds now + ttl) * second
        → verify codec
            (issue codec secret net address amount algorithm target ttl nonce now)
            secret
            net
            address
            amount
            later
          ≡ verified (record {
            net = net;
            address = address;
            amount_sat = amount;
            algorithm = algorithm;
            target = target;
            issued_at = whole_seconds now;
            ttl = ttl;
            nonce = nonce;
          })
  unfolding verify verify_payload issue
  verify-issue secret net address amount algorithm target ttl nonce now later nodot back hex young =
      let p = issue_payload codec net address amount algorithm target ttl nonce now in
      ground (
        arith,
        split_dot-join (encode p) (sign (encode p) secret) nodot,
        codes_eq_refl (sign (encode p) secret),
        differs_text_refl net,
        differs_text_refl address,
      )

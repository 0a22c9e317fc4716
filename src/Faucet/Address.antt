-- ===== src/Faucet/Address.antt =====
-- Address validation (argus/faucet/addresses.py), on the code points of a text. SHA-256, of which
-- base58check needs the double, is an argument.
pub mod Bits
pub mod Family
use Prim.Native.Nat.{bit_xor}
use Prim.Native.Char.{code}
use Prim.Native.String.{String as Str}
use bitcoin_argus.Common.{
  ℕ, zero, suc, ◌+◌, ◌-◌, ◌*◌, ◌/◌, ◌%◌, ◌^◌, String, Bool, true, false, not, ◌&&◌, ◌||◌, Option,
  none, some, List, [], ◌∷◌, ◌++◌, map, ltb, leb, ◌==◌, if◌then◌else◌, str_eq, codes_eq, length,
  any, take, drop,
}

abbrev pub codes : String → List ℕ
codes Str.[] = []
codes (Str.◌∷◌ c s) = code c ∷ codes s

abbrev pub bech32_charset : List ℕ
bech32_charset = codes "qpzry9x8gf2tvdw0s3jn54khce6mua7l"

abbrev pub b58_alphabet : List ℕ
b58_alphabet = codes "123456789ABCDEFGHJKLMNPQRSTUVWXYZabcdefghijkmnopqrstuvwxyz"

abbrev pub bech32_const : ℕ
bech32_const = 1

abbrev pub bech32m_const : ℕ
bech32m_const = 0x2BC830A3

-- `alphabet.find(c)`, `none` for -1.
unfoldable pub index_of : ℕ → List ℕ → Option ℕ
index_of c [] = none
index_of c (d ∷ ds) =
    if d == c then some 0 else elim (index_of c ds) [ none ↦ none | some i ↦ some (i + 1) ]

-- The five generators, each added if its bit of `top` is set.
unfoldable pub polymod_mix : List ℕ → ℕ → ℕ → ℕ
polymod_mix [] top chk = chk
polymod_mix (g ∷ gs) top chk =
    polymod_mix gs (top / 2) (bit_xor chk (if top % 2 == 1 then g else 0))

abbrev pub generators : List ℕ
generators = 0x3B6A57B2 ∷ 0x26508E6D ∷ 0x1EA119FA ∷ 0x3D4233DD ∷ 0x2A1462B3 ∷ []

-- `x & 0x1FFFFFF` is the remainder by 2^25.
unfoldable pub polymod_from : ℕ → List ℕ → ℕ
unfolding polymod_mix
polymod_from chk [] = chk
polymod_from chk (v ∷ vs) =
    polymod_from (polymod_mix generators (chk / 2 ^ 25) (bit_xor (chk % 2 ^ 25 * 2 ^ 5) v)) vs

unfoldable pub bech32_polymod : List ℕ → ℕ
unfolding polymod_from
bech32_polymod = polymod_from 1

unfoldable pub hrp_expand : List ℕ → List ℕ
hrp_expand hrp = map (λ x. x / 32) hrp ++ 0 ∷ map (λ x. x % 32) hrp

abbrev pub lower : ℕ → ℕ
lower c = if leb b'A' c && leb c b'Z' then c + 32 else c

abbrev pub upper : ℕ → ℕ
upper c = if leb b'a' c && leb c b'z' then c - 32 else c

-- `rfind("1")`, as what stands before the last "1" and what stands after it.
unfoldable pub rsplit_one : List ℕ → Option (List ℕ × List ℕ)
rsplit_one [] = none
rsplit_one (c ∷ cs) = elim (rsplit_one cs) [
  | some (before, after) ↦ some (c ∷ before, after)
  | none ↦ if c == b'1' then some ([], cs) else none
]

-- The symbols of a text, `none` if one is not in the charset.
unfoldable pub symbols : List ℕ → Option (List ℕ)
unfolding index_of
symbols [] = some []
symbols (c ∷ cs) = elim (index_of c bech32_charset) [
  | none ↦ none
  | some d ↦ elim (symbols cs) [ none ↦ none | some ds ↦ some (d ∷ ds) ]
]

pub record Decoded : Type 0 where
  pub hrp : List ℕ
  pub values : List ℕ
  pub const : ℕ

-- The checksum test of the decoder, for the symbols after the separator.
unfoldable pub checked : List ℕ → List ℕ → Option Decoded
unfolding bech32_polymod hrp_expand
checked hrp values =
    let const = bech32_polymod (hrp_expand hrp ++ values) in
    if (const == bech32_const) || (const == bech32m_const)
    then some (record { hrp = hrp; values = take (length values - 6) values; const = const })
    else none

unfoldable pub bech32_decode : List ℕ → Option Decoded
unfolding rsplit_one symbols checked
bech32_decode addr =
    let low = map lower addr in
    if any (λ x. ltb x 33 || ltb 126 x) addr
    then none
    else if not (codes_eq low addr) && not (codes_eq (map upper addr) addr)
    then none
    else elim (rsplit_one low) [
      | none ↦ none
      | some (hrp, rest) ↦
          if (length hrp == 0) || (ltb (length low) (length hrp + 7) || ltb 90 (length low))
          then none
          else elim (symbols rest) [ none ↦ none | some values ↦ checked hrp values ]
    ]

-- The inner `while bits >= tobits`, with the bits left as fuel: each round takes at least one away.
unfoldable pub drain : ℕ → ℕ → ℕ → ℕ → List ℕ → ℕ × List ℕ
drain zero acc bits tobits ret = (bits, ret)
drain (suc f) acc bits tobits ret =
    let rest =
      drain f acc (bits - tobits) tobits (ret ++ (acc / 2 ^ (bits - tobits) % 2 ^ tobits) ∷ []) in
    if leb tobits bits then rest else (bits, ret)

-- The outer loop; the result holds the accumulator, the bits left in it and the groups.
unfoldable pub convert_loop : List ℕ → ℕ → ℕ → ℕ → ℕ → List ℕ → Option (ℕ × ℕ × List ℕ)
unfolding drain
convert_loop [] frombits tobits acc bits ret = some (acc, bits, ret)
convert_loop (v ∷ vs) frombits tobits acc bits ret =
    let acc' = acc * 2 ^ frombits + v in
    let (bits', ret') = drain (bits + frombits) acc' (bits + frombits) tobits ret in
    let rest = convert_loop vs frombits tobits acc' bits' ret' in
    if ltb v (2 ^ frombits) then rest else none

unfoldable pub convertbits : List ℕ → ℕ → ℕ → Option (List ℕ)
unfolding convert_loop
convertbits values frombits tobits = elim (convert_loop values frombits tobits 0 0 []) [
  | none ↦ none
  | some (acc, bits, ret) ↦
      if leb frombits bits || not (acc * 2 ^ (tobits - bits) % 2 ^ tobits == 0)
      then none
      else some ret
]

-- The tests on the version and the program of a decoded address.
unfoldable pub valid_program : ℕ → ℕ → List ℕ → Bool
valid_program witver const prog =
    let n = length prog in
    if ltb n 2 || ltb 40 n
    then false
    else if witver == 0
    then ((n == 20) || (n == 32)) && (const == bech32_const)
    else const == bech32m_const

unfoldable pub valid_values : ℕ → List ℕ → Bool
unfolding convertbits valid_program
valid_values const [] = false
valid_values const (witver ∷ rest) =
    if ltb 16 witver
    then false
    else elim (convertbits rest 5 8) [ none ↦ false | some prog ↦ valid_program witver const prog ]

unfoldable pub is_valid_segwit : List ℕ → List ℕ → Bool
unfolding bech32_decode valid_values
is_valid_segwit addr expected_hrp = elim (bech32_decode addr) [
  | none ↦ false
  | some d ↦ codes_eq d.hrp expected_hrp && valid_values d.const d.values
]

-- The number that base-58 text spells.
unfoldable pub b58_value : ℕ → List ℕ → Option ℕ
unfolding index_of
b58_value num [] = some num
b58_value num (c ∷ cs) = elim (index_of c b58_alphabet) [
  | none ↦ none
  | some i ↦ b58_value (num * 58 + i) cs
]

-- The big-endian bytes of a number, without leading zeros, in front of `tail`; the number is fuel.
unfoldable pub to_bytes : ℕ → ℕ → List ℕ → List ℕ
to_bytes zero num rest = rest
to_bytes (suc f) num rest =
    let more = to_bytes f (num / 256) (num % 256 ∷ rest) in if num == 0 then rest else more

-- One zero byte for each leading "1".
unfoldable pub padding : List ℕ → List ℕ
padding [] = []
padding (c ∷ cs) = if c == b'1' then 0 ∷ padding cs else []

-- `_BECH32_HRP.get(chain)`
unfoldable pub bech32_hrp : String → Option (List ℕ)
bech32_hrp chain =
    if str_eq chain "regtest"
    then some (codes "bcrt")
    else if str_eq chain "test" || (str_eq chain "testnet4" || str_eq chain "signet")
    then some (codes "tb")
    else none

-- The characters for which Python's `isspace` holds.
unfoldable pub is_space : ℕ → Bool
is_space c =
    (leb 9 c && leb c 13)
    || ((leb 28 c && leb c 32)
        || ((c == 0x85)
            || ((c == 0xA0)
                || ((c == 0x1680)
                    || ((leb 0x2000 c && leb c 0x200A)
                        || ((c == 0x2028)
                            || ((c == 0x2029)
                                || ((c == 0x202F) || ((c == 0x205F) || (c == 0x3000))))))))))

module _ (sha256 : List ℕ → List ℕ) where
  -- The version byte of the 25 bytes, if the checksum is right.
  unfoldable pub checked_version : List ℕ → Option ℕ
  checked_version [] = none
  checked_version (version ∷ rest) =
      let payload = version ∷ take 20 rest in
      if codes_eq (take 4 (sha256 (sha256 payload))) (drop 20 rest) then some version else none

  unfoldable pub base58check_version : List ℕ → Option ℕ
  unfolding b58_value to_bytes padding checked_version
  base58check_version addr = elim (b58_value 0 addr) [
    | none ↦ none
    | some num ↦
        let combined = padding addr ++ to_bytes num num [] in
        if length combined == 25 then checked_version combined else none
  ]

  unfoldable pub is_valid_address : List ℕ → String → Bool
  unfolding is_space bech32_hrp is_valid_segwit base58check_version
  is_valid_address address chain =
      if (length address == 0) || any is_space address then false else elim (bech32_hrp chain) [
        | none ↦ false
        | some hrp ↦
            if is_valid_segwit address hrp then true else elim (base58check_version address) [
              | none ↦ false
              | some version ↦ (version == 0x6F) || (version == 0xC4)
            ]
      ]

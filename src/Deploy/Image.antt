-- ===== src/Deploy/Image.antt =====
-- The version of Bitcoin Core that the tag of an image names (argus/config.py).
use bitcoin_argus.Common.{
  ℕ, ◌+◌, ◌-◌, ◌*◌, String, ◌&&◌, ◌||◌, Option, none, some, List, [], ◌∷◌, leb, ◌==◌, if◌then◌else◌,
}
use bitcoin_argus.Faucet.Address.{codes}

-- The code points after the last colon, those without leading letters v, and the number at their start.
unfoldable pub after_colon : List ℕ → Option (List ℕ)
after_colon [] = none
after_colon (c ∷ cs) = elim (after_colon cs) [
  | some tag ↦ some tag
  | none ↦ if c == 58 then some cs else none
]

unfoldable pub strip_v : List ℕ → List ℕ
strip_v [] = []
strip_v (c ∷ cs) = let rest = strip_v cs in if (c == 118) || (c == 86) then rest else c ∷ cs

unfoldable pub leading_number : Option ℕ → List ℕ → Option ℕ
leading_number n [] = n
leading_number n (c ∷ cs) =
    let more = leading_number (some (elim n [ none ↦ 0 | some m ↦ m ] * 10 + (c - 48))) cs in
    if leb 48 c && leb c 57 then more else n

unfoldable pub core_major_from_image : String → Option ℕ
core_major_from_image image = elim (after_colon (codes image)) [
  | none ↦ none
  | some tag ↦ leading_number none (strip_v tag)
]

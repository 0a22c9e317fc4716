-- ===== src/Deploy/Secrets/Lines.antt =====
-- The text of a file of secrets (argus/secrets.py) and what is read of it.
use mathlib.Core.List.{append_assoc}
use bitcoin_argus.Common.{
  ℕ, ◌≡◌, refl, sym, ap, ◌∙◌, Bool, true, false, not, Option, none, some, List, [], ◌∷◌, ◌++◌,
  arith, ◌==◌, any, All,
}
use bitcoin_argus.Faucet.Address.{is_space}
use bitcoin_argus.Deploy.Secrets.{
  Text, Values, set, is_break, splitlines, lstrip, rstrip, strip, equals_sign, hash_sign, newline,
  parts, line_item, parse_lines, body,
}

-- A text that `strip` leaves as it is: its first character is no space, and neither is its last.
abbrev pub starts : Text → Bool
starts [] = true
starts (c ∷ cs) = not (is_space c)

abbrev pub Trim : Text → Type 0
Trim t = (starts t ≡ true) × (rstrip t ≡ t)

abbrev pub no_comment : Text → Bool
no_comment [] = true
no_comment (c ∷ cs) = not (c == hash_sign)

abbrev pub Lacks : (ℕ → Bool) → Text → Type 0
Lacks p t = any p t ≡ false

abbrev pub is_equals : ℕ → Bool
is_equals c = c == equals_sign

-- An item that its own line is read as.
pub record IsPlain (r : Text × Text) : Type 0 where
  pub key_trim : Trim r.0
  pub value_trim : Trim r.1
  pub key_no_comment : no_comment r.0 ≡ true
  pub key_no_equals : Lacks is_equals r.0
  pub key_one_line : Lacks is_break r.0
  pub value_one_line : Lacks is_break r.1

pub lstrip-starts : (t : Text) → starts t ≡ true → lstrip t ≡ t
unfolding lstrip
lstrip-starts [] h = refl
lstrip-starts (c ∷ cs) h = ground arith

pub strip-Trim : (t : Text) → Trim t → strip t ≡ t
unfolding strip
strip-Trim t h = rw (lstrip-starts t h.0) h.1

rstrip-cons : (c d : ℕ) (t ds : Text) → rstrip t ≡ d ∷ ds → rstrip (c ∷ t) ≡ c ∷ d ∷ ds
unfolding rstrip
rstrip-cons c d t ds h = rw (h) refl

rstrip-equals : (v : Text) → rstrip v ≡ v → rstrip (equals_sign ∷ v) ≡ equals_sign ∷ v
unfolding rstrip is_space
rstrip-equals [] h = refl
rstrip-equals (d ∷ ds) h = rstrip-cons equals_sign d (d ∷ ds) ds h

rstrip-item : (k v : Text) → rstrip v ≡ v → rstrip (k ++ equals_sign ∷ v) ≡ k ++ equals_sign ∷ v
rstrip-item [] v h = rstrip-equals v h
rstrip-item (c ∷ []) v h = rstrip-cons c equals_sign (equals_sign ∷ v) v (rstrip-equals v h)
rstrip-item (c ∷ d ∷ ks) v h =
    rstrip-cons c d (d ∷ (ks ++ equals_sign ∷ v)) (ks ++ equals_sign ∷ v) (rstrip-item (d ∷ ks) v h)

strip-item :
    (k v : Text)
    → starts k ≡ true
    → rstrip v ≡ v
    → strip (k ++ equals_sign ∷ v) ≡ k ++ equals_sign ∷ v
unfolding is_space
strip-item [] v s h = strip-Trim (equals_sign ∷ v) (refl, rstrip-item [] v h)
strip-item (c ∷ k) v s h = strip-Trim (c ∷ (k ++ equals_sign ∷ v)) (s, rstrip-item (c ∷ k) v h)

parts-item : (k v : Text) → Lacks is_equals k → parts (k ++ equals_sign ∷ v) ≡ some (k, v)
unfolding parts
parts-item [] v h = refl
parts-item (c ∷ k) v h =
    let rest : parts (k ++ equals_sign ∷ v) ≡ some (k, v) = parts-item k v (ground arith) in
    let other : (c == equals_sign) ≡ false = ground arith in rw (other, rest) refl

line_item-item :
    (k v : Text)
    → no_comment k ≡ true
    → Lacks is_equals k
    → line_item (k ++ equals_sign ∷ v) ≡ some (strip k, strip v)
unfolding line_item
line_item-item [] v c h = rw (parts-item [] v h) refl
line_item-item (d ∷ k) v c h =
    let plain : (d == hash_sign) ≡ false = ground arith in rw (plain, parts-item (d ∷ k) v h) refl

line_item-IsPlain :
    (r : Text × Text) → IsPlain r → line_item (strip (r.0 ++ equals_sign ∷ r.1)) ≡ some (r.0, r.1)
line_item-IsPlain r h =
    ap line_item (strip-item r.0 r.1 h.key_trim.0 h.value_trim.1)
    ∙ (line_item-item r.0 r.1 h.key_no_comment h.key_no_equals
        ∙ rw (strip-Trim r.0 h.key_trim, strip-Trim r.1 h.value_trim) refl)

splitlines-line :
    (xs t : Text) → Lacks is_break xs → splitlines (xs ++ newline ∷ t) ≡ xs ∷ splitlines t
unfolding splitlines
splitlines-line [] t h = refl
splitlines-line (c ∷ xs) t h =
    let rest : splitlines (xs ++ newline ∷ t) ≡ xs ∷ splitlines t =
      splitlines-line xs t (ground arith) in
    let inner : is_break c ≡ false = ground arith in rw (inner, rest) refl

Lacks-item :
    (k v : Text) → Lacks is_break k → Lacks is_break v → Lacks is_break (k ++ equals_sign ∷ v)
Lacks-item [] v h j = j
Lacks-item (c ∷ k) v h j = ground (arith, Lacks-item k v)

-- All items of a list, set one after the other.
unfoldable pub set_all : Values → Values → Values
set_all [] out = out
set_all (r ∷ rows) out = set_all rows (set r.0 r.1 out)

parse_lines-cons :
    (line k v : Text) (lines : List Text) (out : Values)
    → line_item (strip line) ≡ some (k, v)
    → parse_lines (line ∷ lines) out ≡ parse_lines lines (set k v out)
unfolding parse_lines
parse_lines-cons line k v lines out h =
    ap
      (λ (o : Option (Text × Text)). elim o as (λ x. Values) [
        | none ↦ parse_lines lines out
        | some (a, b) ↦ parse_lines lines (set a b out)
      ])
      h

body-line :
    (r : Text × Text) (rows : Values)
    → IsPlain r
    → splitlines (body (r ∷ rows)) ≡ (r.0 ++ equals_sign ∷ r.1) ∷ splitlines (body rows)
unfolding body
body-line r rows h =
    ap splitlines (sym (append_assoc r.0 (equals_sign ∷ r.1) (newline ∷ body rows)))
    ∙ splitlines-line (r.0 ++ equals_sign ∷ r.1) (body rows)
        (Lacks-item r.0 r.1 h.key_one_line h.value_one_line)

body-empty : (out : Values) → parse_lines (splitlines (body [])) out ≡ out
unfolding parse_lines splitlines body line_item strip lstrip rstrip
body-empty out = refl

-- What is read of the text of plain items sets these items.
pub parse_lines-body :
    (rows out : Values)
    → All IsPlain rows
    → parse_lines (splitlines (body rows)) out ≡ set_all rows out
unfolding set_all
parse_lines-body [] out h = body-empty out
parse_lines-body (r ∷ rows) out h =
    ap (λ ls. parse_lines ls out) (body-line r rows h.0)
    ∙ (parse_lines-cons (r.0 ++ equals_sign ∷ r.1) r.0 r.1 (splitlines (body rows)) out
          (line_item-IsPlain r h.0)
        ∙ parse_lines-body rows (set r.0 r.1 out) h.1)

-- ===== src/Deploy/Secrets/Read.antt =====
-- What argus/secrets.py reads of a file: plain items with one per key, and what is written is read back.
use mathlib.Core.Path.{subst}
use bitcoin_argus.Common.{
  ℕ, ◌≡◌, refl, ap, ◌∙◌, Bool, true, false, Option, none, some, List, [], ◌∷◌, arith, ◌==◌, All,
  codes_eq, inl, inr, Bool-cases, Option-cases,
}
use bitcoin_argus.Common.Table.{All-upsert}
use bitcoin_argus.Deploy.Secrets.{
  Text, Values, get, set, is_break, splitlines, lstrip, rstrip, strip, equals_sign, hash_sign,
  parts, line_item, parse_lines, parse_env, sorted, body,
}
use bitcoin_argus.Deploy.Secrets.Lines.{
  lstrip-starts, starts, Trim, no_comment, Lacks, is_equals, IsPlain, parse_lines-body,
}
use bitcoin_argus.Deploy.Secrets.Dicts.{
  Distinct, set-Distinct, first_of, get-empty, get-set_all, sorted-same, All-sorted,
}

-- Both, as a dict has them.
abbrev pub IsDict : Values → Type 0
IsDict values = All IsPlain values × Distinct values

first_of-none : (o : Option Text) → first_of o none ≡ o
first_of-none none = refl
first_of-none (some v) = refl

-- A dict that is written is read back, key by key.
pub parse_env-body :
    (values : Values)
    → IsDict values
    → (key : Text) → get key (parse_env (body (sorted values))) ≡ get key values
unfolding parse_env
parse_env-body values (plain, distinct) key =
    let (same, apart) = sorted-same values distinct in
    ap (get key) (parse_lines-body (sorted values) [] (All-sorted IsPlain values plain))
    ∙ (get-set_all key (sorted values) [] apart
        ∙ (ap (first_of (get key (sorted values))) (get-empty key)
            ∙ (first_of-none (get key (sorted values)) ∙ same key)))

lstrip-starts_always : (t : Text) → starts (lstrip t) ≡ true
unfolding lstrip
lstrip-starts_always [] = refl
lstrip-starts_always (c ∷ cs) = ground (arith, lstrip-starts_always cs)

rstrip-starts : (t : Text) → starts t ≡ true → starts (rstrip t) ≡ true
unfolding rstrip
rstrip-starts [] h = refl
rstrip-starts (c ∷ cs) h = ground (arith, h)

rstrip_idem : (t : Text) → rstrip (rstrip t) ≡ rstrip t
unfolding rstrip
rstrip_idem [] = refl
rstrip_idem (c ∷ cs) = ground (arith, rstrip_idem cs)

strip-Trim_always : (t : Text) → Trim (strip t)
unfolding strip
strip-Trim_always t = (rstrip-starts (lstrip t) (lstrip-starts_always t), rstrip_idem (lstrip t))

-- A character that a text lacks is not in what is left of it.
lstrip-Lacks : (p : ℕ → Bool) (t : Text) → Lacks p t → Lacks p (lstrip t)
unfolding lstrip
lstrip-Lacks p [] h = h
lstrip-Lacks p (c ∷ cs) h = ground (arith, lstrip-Lacks p cs)

rstrip-Lacks : (p : ℕ → Bool) (t : Text) → Lacks p t → Lacks p (rstrip t)
unfolding rstrip
rstrip-Lacks p [] h = h
rstrip-Lacks p (c ∷ cs) h = ground (arith, rstrip-Lacks p cs)

strip-Lacks : (p : ℕ → Bool) (t : Text) → Lacks p t → Lacks p (strip t)
unfolding strip
strip-Lacks p t h = rstrip-Lacks p (lstrip t) (lstrip-Lacks p t h)

rstrip-no_comment : (t : Text) → no_comment t ≡ true → no_comment (rstrip t) ≡ true
unfolding rstrip
rstrip-no_comment [] h = refl
rstrip-no_comment (c ∷ cs) h = ground (arith, h)

strip-no_comment : (t : Text) → starts t ≡ true → no_comment t ≡ true → no_comment (strip t) ≡ true
unfolding strip
strip-no_comment t s h = rw (lstrip-starts t s) (rstrip-no_comment t h)

-- The parts of a line.
record IsParts (t k v : Text) : Type 0 where
  key_no_equals : Lacks is_equals k
  key_starts : starts t ≡ true → starts k ≡ true
  key_no_comment : no_comment t ≡ true → no_comment k ≡ true
  lacks : (p : ℕ → Bool) → Lacks p t → Lacks p k × Lacks p v

parts-IsParts : (t k v : Text) → parts t ≡ some (k, v) → IsParts t k v
unfolding parts
parts-IsParts [] k v h = cc
parts-IsParts (c ∷ cs) k v h = elim (Bool-cases (c == equals_sign)) [
  | inl e ↦
      let key : [] ≡ k = ground arith in
      let value : cs ≡ v = ground arith in
      rw (← key, ← value)
        (record {
          key_no_equals = refl;
          key_starts = λ s. refl;
          key_no_comment = λ s. refl;
          lacks = λ p l. (refl, ground arith);
        })
  | inr e ↦ elim (Option-cases (parts cs)) [
    | inl n ↦ absurd (ground arith)
    | inr ((k', v'), n) ↦
        let rest = parts-IsParts cs k' v' n in
        let key : c ∷ k' ≡ k = ground arith in
        let value : v' ≡ v = ground arith in
        rw (← key, ← value)
          (record {
            key_no_equals = ground (arith, rest.key_no_equals);
            key_starts = λ s. s;
            key_no_comment = λ s. s;
            lacks = λ p l. (ground (arith, rest.lacks p), (rest.lacks p (ground arith)).1);
          })
  ]
]

line_item-IsPlain_of_some :
    (t : Text) (r : Text × Text)
    → starts t ≡ true
    → Lacks is_break t
    → line_item t ≡ some r
    → IsPlain r
unfolding line_item
line_item-IsPlain_of_some [] r s l h = cc
line_item-IsPlain_of_some (c ∷ cs) r s l h = elim (Bool-cases (c == hash_sign)) [
  | inl e ↦ absurd (ground arith)
  | inr e ↦ elim (Option-cases (parts (c ∷ cs))) [
    | inl n ↦ absurd (ground arith)
    | inr ((k, v), n) ↦
        let both = parts-IsParts (c ∷ cs) k v n in
        let one_line = both.lacks is_break l in
        let comment : no_comment k ≡ true = both.key_no_comment (ground arith) in
        let same : (strip k, strip v) ≡ r = ground arith in
        subst IsPlain same (record {
          key_trim = strip-Trim_always k;
          value_trim = strip-Trim_always v;
          key_no_comment = strip-no_comment k (both.key_starts s) comment;
          key_no_equals = strip-Lacks is_equals k both.key_no_equals;
          key_one_line = strip-Lacks is_break k one_line.0;
          value_one_line = strip-Lacks is_break v one_line.1;
        })
  ]
]

pub set-IsDict :
    (values : Values) (k v : Text) → IsDict values → IsPlain (k, v) → IsDict (set k v values)
unfolding set
set-IsDict values k v h plain = (
  All-upsert IsPlain (λ r. codes_eq k r.0) (λ r. (r.0, v)) (k, v) values
      (λ r p. record {
        key_trim = p.key_trim;
        value_trim = plain.value_trim;
        key_no_comment = p.key_no_comment;
        key_no_equals = p.key_no_equals;
        key_one_line = p.key_one_line;
        value_one_line = plain.value_one_line;
      })
      plain h.0,
  set-Distinct k v values h.1,
)

joined :
    (c : ℕ) (lines : List Text)
    → is_break c ≡ false
    → All (Lacks is_break) lines
    → All (Lacks is_break) (elim lines [ [] ↦ (c ∷ []) ∷ [] | line ∷ more ↦ (c ∷ line) ∷ more ])
joined c [] e h = (ground arith, tt)
joined c (line ∷ lines) e h = (ground (arith, h.0), h.1)

splitlines-one_line : (t : Text) → All (Lacks is_break) (splitlines t)
unfolding splitlines
splitlines-one_line [] = (refl, tt)
splitlines-one_line (c ∷ cs) = elim (Bool-cases (is_break c)) [
  | inl e ↦ rw e (refl, splitlines-one_line cs)
  | inr e ↦ rw e (joined c (splitlines cs) e (splitlines-one_line cs))
]

parse_lines-IsDict :
    (lines : List Text) (out : Values)
    → All (Lacks is_break) lines
    → IsDict out
    → IsDict (parse_lines lines out)
unfolding parse_lines
parse_lines-IsDict [] out l h = h
parse_lines-IsDict (line ∷ lines) out l h = elim (Option-cases (line_item (strip line))) [
  | inl n ↦ rw (n, parse_lines) (parse_lines-IsDict lines out l.1 h)
  | inr ((k, v), n) ↦
      let plain =
        line_item-IsPlain_of_some (strip line) (k, v) (strip-Trim_always line).0
          (strip-Lacks is_break line l.0) n in
      rw (n, parse_lines) (parse_lines-IsDict lines (set k v out) l.1 (set-IsDict out k v h plain))
]

-- What is read of any file is a dict that is written and read back as it is.
pub parse_env-IsDict : (text : Text) → IsDict (parse_env text)
unfolding parse_env
parse_env-IsDict text = parse_lines-IsDict (splitlines text) [] (splitlines-one_line text) (tt, tt)

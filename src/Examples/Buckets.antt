-- ===== src/Examples/Buckets.antt =====
-- A bucket as a list of keys and contents, and ids as texts.
use chipatelier.Prelude.{
  ℕ, ◌+◌, ◌≡◌, refl, ◌&&◌, Option, none, some, List, [], ◌∷◌, ◌++◌, arith, any, if◌then◌else◌,
  is_some, length, Bool-cases, inl, inr,
}
use chipatelier.Prelude.Text.{Text, codes, eq_text, eq_text_sound}
use chipatelier.Projects.Storage.{Python, Bucket, starts_with}

pub str_uuid_length : (i : ℕ) → length (i ∷ codes "00000000-0000-0000-0000-00000000000") ≡ 36
str_uuid_length i = refl

abbrev pub head_of : Text → Option ℕ
head_of [] = none
head_of (c ∷ cs) = some c

abbrev pub plain_python : Python
plain_python = record {
  str_uuid = λ i. i ∷ codes "00000000-0000-0000-0000-00000000000";
  str_int = λ n. (48 + n) ∷ [];
  parse_uuid = head_of;
  lower = λ t. t;
  encode = λ t. t;
  decode = λ t. t;
  str_uuid_length = λ i. str_uuid_length i;
  parse-str_uuid = λ i. refl;
  decode-encode = λ t. refl;
}

abbrev pub Cells : Type 0
Cells = List (Text × Text)

unfoldable pub body_of : Text → Cells → Option Text
body_of key [] = none
body_of key ((k, body) ∷ cells) = if eq_text k key then some body else body_of key cells

unfoldable pub without : List Text → Cells → Cells
without ks [] = []
without ks ((k, body) ∷ cells) =
    let rest = without ks cells in if any (λ j. eq_text j k) ks then rest else (k, body) ∷ rest

unfoldable pub keys_under : Text → Cells → List Text
keys_under prefix [] = []
keys_under prefix ((k, body) ∷ cells) =
    let rest = keys_under prefix cells in if starts_with prefix k then k ∷ rest else rest

pub body_of-without :
    (ks : List Text) (key : Text) (cells : Cells)
    → body_of key (without ks cells)
      ≡ (if any (λ k. eq_text k key) ks then none else body_of key cells)
unfolding body_of without
body_of-without ks key [] = ground arith
body_of-without ks key ((k, body) ∷ cells) = elim (Bool-cases (eq_text k key)) [
  | inl same ↦
      let equal : k ≡ key = eq_text_sound k key same in
      ground (arith, equal, body_of-without ks key cells)
  | inr other ↦ ground (arith, body_of-without ks key cells)
]

pub any-keys_under :
    (prefix key : Text) (cells : Cells)
    → any (λ k. eq_text k key) (keys_under prefix cells ++ [])
      ≡ (starts_with prefix key && is_some (body_of key cells))
unfolding body_of keys_under any
any-keys_under prefix key [] = ground arith
any-keys_under prefix key ((k, body) ∷ cells) = elim (Bool-cases (eq_text k key)) [
  | inl same ↦
      let equal : k ≡ key = eq_text_sound k key same in
      ground (arith, equal, any-keys_under prefix key cells)
  | inr other ↦ ground (arith, any-keys_under prefix key cells)
]

pub put_law :
    (k j body : Text) (o : Cells)
    → body_of j ((k, body) ∷ o) ≡ (if eq_text k j then some body else body_of j o)
unfolding body_of
put_law k j body o = refl

abbrev pub list_bucket : Bucket
list_bucket = record {
  Objects = Cells;
  get = body_of;
  put = λ k body o. (k, body) ∷ o;
  delete_objects = without;
  pages = λ prefix o. keys_under prefix o ∷ [];
  get-put = λ k j body o. put_law k j body o;
  get-delete = λ ks j o. body_of-without ks j o;
  listed = λ prefix j o. any-keys_under prefix j o;
}

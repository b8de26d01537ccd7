-- ===== src/Metrics/Merge.antt =====
-- The merged dictionary: which file a key's value comes from.
use chipatelier.Prelude.{
  ◌≡◌, refl, sym, subst, String, Option, none, some, List, [], ◌∷◌, arith, str_eq, eq_iff, lookup,
  if◌then◌else◌, Bool-cases, inl, inr,
}
use chipatelier.Prelude.Int.{ℤ}
use chipatelier.Prelude.Text.{Text}
use chipatelier.Metrics.{
  Dict, FileText, object, skipped, undecodable, set_item, update_dict, merge_files,
}

lookup-set_item :
    (key k : String) (value : Option ℤ) (d : Dict)
    → lookup k (set_item key value d) ≡ (if str_eq key k then some value else lookup k d)
unfolding lookup
lookup-set_item key k value [] = refl
lookup-set_item key k value ((j, v) ∷ d) = elim (Bool-cases (str_eq j key)) [
  | inl same ↦
      let equal : j ≡ key = (eq_iff j key).0 same in
      ground (arith, same, subst (λ x. str_eq x k ≡ str_eq key k) (sym equal) refl)
  | inr other ↦ elim (Bool-cases (str_eq key k)) [
    | inl found ↦ ground (
      arith,
      other,
      found,
      lookup-set_item key k value d,
      subst (λ x. str_eq j x ≡ str_eq j key) ((eq_iff key k).0 found) refl,
    )
    | inr away ↦ ground (arith, other, away, lookup-set_item key k value d)
  ]
]

abbrev pub newest : Option (Option ℤ) → Option (Option ℤ) → Option (Option ℤ)
newest none old = old
newest (some value) old = some value

-- What the last pair with that key holds.
abbrev pub last_item : String → Dict → Option (Option ℤ)
last_item k [] = none
last_item k ((key, value) ∷ d) = newest (last_item k d) (if str_eq key k then some value else none)

-- What the last object with that key holds.
abbrev pub last_value : String → List (Text × FileText) → Option (Option ℤ)
last_value k [] = none
last_value k ((name, object d) ∷ files) = newest (last_value k files) (last_item k d)
last_value k ((name, skipped) ∷ files) = last_value k files
last_value k ((name, undecodable) ∷ files) = last_value k files

newest_assoc : (x y z : Option (Option ℤ)) → newest (newest x y) z ≡ newest x (newest y z)
newest_assoc none y z = refl
newest_assoc (some value) y z = refl

lookup-update_dict :
    (k : String) (d pairs : Dict)
    → lookup k (update_dict d pairs) ≡ newest (last_item k pairs) (lookup k d)
lookup-update_dict k d [] = refl
lookup-update_dict k d ((key, value) ∷ pairs) =
    ground (arith, lookup-update_dict k (set_item key value d) pairs, lookup-set_item key k value d)

-- Whatever the order in which keys came first, the merged value of a key is that of the last file,
-- in name order, that has the key; a key that no file has keeps the value that it had.
pub lookup-merge_files :
    (files : List (Text × FileText)) (k : String) (d merged : Dict)
    → merge_files files d ≡ some merged
    → lookup k merged ≡ newest (last_value k files) (lookup k d)
unfolding merge_files
lookup-merge_files [] k d merged h = ground arith
lookup-merge_files ((name, object o) ∷ files) k d merged h =
    rw (lookup-merge_files files k (update_dict d o) merged h) (
      rw (lookup-update_dict k d o)
        (sym (newest_assoc (last_value k files) (last_item k o) (lookup k d))))
lookup-merge_files ((name, skipped) ∷ files) k d merged h = lookup-merge_files files k d merged h
lookup-merge_files ((name, undecodable) ∷ files) k d merged h = absurd (ground arith)

-- ===== src/Projects/Storage.antt =====
-- Object storage: backend/app/services/storage_service.py over an interface of the S3 commands, and
-- backend/app/tasks/storage_cleanup.py. The URLs that it signs are left out.
use chipatelier.Prelude.{
  ℕ, ◌+◌, ◌≡◌, Bool, ◌&&◌, Option, none, some, List, [], ◌∷◌, ◌++◌, any, length, if◌then◌else◌,
  is_some,
}
use chipatelier.Prelude.Text.{Text, codes, eq_text, strip_prefix, is_truthy}

-- What the code uses of Python: `str` of a UUID and of an int, `str.lower`, and UTF-8.
pub record Python : Type 0 where
  pub str_uuid : ℕ → Text
  -- `uuid.UUID(text)`, or none where it raises
  pub parse_uuid : Text → Option ℕ
  pub str_int : ℕ → Text
  pub lower : Text → Text
  pub encode : Text → Text
  pub decode : Text → Text
  pub str_uuid_length : (i : ℕ) → length (str_uuid i) ≡ 36
  pub parse-str_uuid : (i : ℕ) → parse_uuid (str_uuid i) ≡ some i
  pub decode-encode : (t : Text) → decode (encode t) ≡ t

abbrev pub concat : List (List Text) → List Text
concat [] = []
concat (page ∷ pages) = page ++ concat pages

-- `key.startswith(prefix)`
abbrev pub starts_with : Text → Text → Bool
starts_with prefix key = is_some (strip_prefix prefix key)

-- The bucket: GetObject (none is an error), PutObject, DeleteObjects and the pages of ListObjectsV2.
-- A page starts behind the last key of the page before, so deleting listed keys does not move it.
pub record Bucket : Type 1 where
  pub Objects : Type 0
  pub get : Text → Objects → Option Text
  pub put : Text → Text → Objects → Objects
  pub delete_objects : List Text → Objects → Objects
  pub pages : Text → Objects → List (List Text)
  pub get-put :
      (k j body : Text) (o : Objects)
      → get j (put k body o) ≡ (if eq_text k j then some body else get j o)
  pub get-delete :
      (ks : List Text) (j : Text) (o : Objects)
      → get j (delete_objects ks o) ≡ (if any (λ k. eq_text k j) ks then none else get j o)
  pub listed :
      (prefix j : Text) (o : Objects)
      → any (λ k. eq_text k j) (concat (pages prefix o))
        ≡ (starts_with prefix j && is_some (get j o))

module _ (B : Bucket) where
  open B use {Objects, get, delete_objects, pages}

  abbrev pub list_files : Text → Objects → List Text
  list_files prefix o = concat (pages prefix o)

  abbrev pub delete_pages : List (List Text) → Objects → ℕ × Objects
  delete_pages [] o = (0, o)
  delete_pages ([] ∷ rest) o = delete_pages rest o
  delete_pages ((key ∷ keys) ∷ rest) o =
      let (count, o') = delete_pages rest (delete_objects (key ∷ keys) o) in
      (length (key ∷ keys) + count, o')

  -- The number of objects deleted, and what is left.
  unfoldable pub delete_prefix : Text → Objects → ℕ × Objects
  delete_prefix prefix o = delete_pages (pages prefix o) o

  abbrev pub purge_paths : List Text → Objects → Objects
  purge_paths [] o = o
  purge_paths (path ∷ paths) o =
      purge_paths paths (if is_truthy path then (delete_prefix path o).1 else o)

  -- `f"projects/{project_id}/"`
  abbrev pub project_prefix : Python → ℕ → Text
  project_prefix P project_id = codes "projects/" ++ P.str_uuid project_id ++ codes "/"

  unfoldable pub purge_project_artifacts : Python → ℕ → List Text → Objects → Objects
  purge_project_artifacts P project_id artifact_paths o =
      purge_paths artifact_paths (delete_prefix (project_prefix P project_id) o).1

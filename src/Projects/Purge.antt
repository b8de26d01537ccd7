-- ===== src/Projects/Purge.antt =====
-- What deleting by prefix removes.
use chipatelier.Prelude.{
  ℕ, ◌≡◌, refl, Bool, true, false, ◌&&◌, ◌||◌, none, List, [], ◌∷◌, ◌++◌, arith, any, if◌then◌else◌,
}
use chipatelier.Prelude.Text.{Text, eq_text, is_truthy}
use chipatelier.Projects.Storage.{
  Python, Bucket, concat, starts_with, delete_pages, delete_prefix, purge_paths, project_prefix,
  purge_project_artifacts,
}

any-append : (p : Text → Bool) (xs ys : List Text) → any p (xs ++ ys) ≡ (any p xs || any p ys)
unfolding any
any-append p [] ys = refl
any-append p (x ∷ xs) ys = ground (arith, any-append p xs ys)

module _ (B : Bucket) where
  open B use {Objects, get, delete_objects, pages, get-delete, listed}

  delete_pages-get :
      (rest : List (List Text)) (key : Text) (o : Objects)
      → get key (delete_pages B rest o).1
        ≡ (if any (λ k. eq_text k key) (concat rest) then none else get key o)
  unfolding any
  delete_pages-get [] key o = refl
  delete_pages-get ([] ∷ rest) key o = delete_pages-get rest key o
  delete_pages-get ((k ∷ ks) ∷ rest) key o = ground (
    arith,
    delete_pages-get rest key (delete_objects (k ∷ ks) o),
    get-delete (k ∷ ks) key o,
    any-append (λ j. eq_text j key) (k ∷ ks) (concat rest),
  )

  -- Deleting a prefix removes the objects whose key starts with it, and no other.
  pub delete_prefix-get :
      (prefix key : Text) (o : Objects)
      → get key (delete_prefix B prefix o).1 ≡ (if starts_with prefix key then none else get key o)
  unfolding delete_prefix
  delete_prefix-get prefix key o =
      ground (arith, delete_pages-get (pages prefix o) key o, listed prefix key o)

  purge_paths-get :
      (paths : List Text) (key : Text) (o : Objects)
      → get key (purge_paths B paths o)
        ≡ (if any (λ p. is_truthy p && starts_with p key) paths then none else get key o)
  unfolding any
  purge_paths-get [] key o = refl
  purge_paths-get (p ∷ paths) key o =
      go (is_truthy p) (delete_prefix-get p key o) (purge_paths-get paths key o)
        (purge_paths-get paths key (delete_prefix B p o).1)
    where
      go :
          (b : Bool)
          → get key (delete_prefix B p o).1 ≡ (if starts_with p key then none else get key o)
          → get key (purge_paths B paths o)
            ≡ (if any (λ q. is_truthy q && starts_with q key) paths then none else get key o)
          → get key (purge_paths B paths (delete_prefix B p o).1) ≡ (
              if any (λ q. is_truthy q && starts_with q key) paths
              then none
              else get key (delete_prefix B p o).1)
          → get key (purge_paths B paths (if b then (delete_prefix B p o).1 else o)) ≡ (
              if (b && starts_with p key) || any (λ q. is_truthy q && starts_with q key) paths
              then none
              else get key o)
      go true h ih ih' = ground arith
      go false h ih ih' = ih

  -- The purge of a deleted project removes the objects under the project's own prefix and those
  -- whose key starts with a nonempty artifact path that came with the message, and no other.
  pub purge_lem :
      (P : Python) (project_id : ℕ) (paths : List Text) (key : Text) (o : Objects)
      → get key (purge_project_artifacts B P project_id paths o) ≡ (
          if starts_with (project_prefix B P project_id) key
            || any (λ p. is_truthy p && starts_with p key) paths
          then none
          else get key o)
  unfolding purge_project_artifacts
  purge_lem P project_id paths key o = ground (
    arith,
    purge_paths-get paths key (delete_prefix B (project_prefix B P project_id) o).1,
    delete_prefix-get (project_prefix B P project_id) key o,
  )

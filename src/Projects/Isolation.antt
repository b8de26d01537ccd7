-- ===== src/Projects/Isolation.antt =====
-- What the purge behind the deletion of a project reaches.
use chipatelier.Prelude.{
  ℕ, ◌≡◌, ◌≢◌, ◌∙◌, length, refl, ap, sym, Bool, true, false, ◌&&◌, ◌||◌, none, List, [], ◌∷◌, ◌++◌,
  arith, if◌then◌else◌, any, or_else, Bool-cases, inl, inr,
}
use chipatelier.Prelude.Text.{Text, codes, is_truthy, strip_prefix}
use chipatelier.Model.{User, Run, Db, purge_project_artifacts}
use chipatelier.Projects.Storage.{
  Python, Bucket, starts_with, project_prefix, purge_project_artifacts as purge,
}
use chipatelier.Projects.Purge.{purge_lem}
use chipatelier.Projects.{World, delete_project, runs_of, artifact_paths}
use chipatelier.Projects.Delete.{delete_effect}
use chipatelier.Http.{ok}

artifact_paths-any :
    (Q : Text → Bool) (runs : List Run)
    → any (λ p. is_truthy p && Q p) (artifact_paths runs)
      ≡ any
          (λ (run : Run).
            is_truthy (or_else run.artifact_path []) && Q (or_else run.artifact_path []))
          runs
unfolding any
artifact_paths-any Q [] = refl
artifact_paths-any Q (run ∷ runs) = ground (arith, artifact_paths-any Q runs)

-- What the purge with the paths of a project's runs reaches.
purge_reach :
    (P : Python) (B : Bucket) (project_id : ℕ) (db : Db) (key : Text) (o : B.Objects)
    → B.get key (purge B P project_id (artifact_paths (runs_of project_id db)) o) ≡ (
        if starts_with (project_prefix B P project_id) key
          || any
              (λ (run : Run).
                is_truthy (or_else run.artifact_path [])
                && starts_with (or_else run.artifact_path []) key)
              (runs_of project_id db)
        then none
        else B.get key o)
purge_reach P B project_id db key o =
    rw (purge_lem B P project_id (artifact_paths (runs_of project_id db)) key o)
      (rw (artifact_paths-any (λ p. starts_with p key) (runs_of project_id db)) refl)

-- If the deletion of a project succeeds and the broker takes its message, the message that it adds
-- carries paths with which the purge function removes exactly the objects under the project's own
-- prefix and those whose key starts with the nonempty artifact path that a run of the project had
-- before, whosever they are; the deletion itself removes no object.
pub delete_purges :
    (P : Python) (B : Bucket) (project_id : ℕ) (user : User) (w : World P B)
    → (delete_project P B true project_id user w).0 ≡ ok tt
    → ((delete_project P B true project_id user w).1.objects ≡ w.objects)
      × ((paths : List Text) × ((delete_project P B true project_id user w).1.sent
            ≡ w.sent ++ purge_project_artifacts project_id paths ∷ [])
          × ((key : Text) (o : B.Objects)
              → B.get key (purge B P project_id paths o) ≡ (
                  if starts_with (project_prefix B P project_id) key
                    || any
                        (λ (run : Run).
                          is_truthy (or_else run.artifact_path [])
                          && starts_with (or_else run.artifact_path []) key)
                        (runs_of project_id w.db)
                  then none
                  else B.get key o)))
delete_purges P B project_id user w h =
    let (_, _, _, _, _, _, objects, sent) = delete_effect P B true project_id user w h in
    (
      objects,
      (
        artifact_paths (runs_of project_id w.db),
        sent,
        λ key o. purge_reach P B project_id w.db key o,
      ),
    )

same_head :
    (xs ys zs ws : Text)
    → length xs ≡ length ys
    → starts_with (xs ++ zs) (ys ++ ws) ≡ true
    → xs ≡ ys
unfolding strip_prefix
same_head [] [] zs ws h s = refl
same_head [] (y ∷ ys) zs ws h s = absurd (omega (arith, h))
same_head (x ∷ xs) [] zs ws h s = absurd (omega (arith, h))
same_head (x ∷ xs) (y ∷ ys) zs ws h s = ground (arith, same_head xs ys zs ws)

str_uuid_injective : (P : Python) (i j : ℕ) → P.str_uuid i ≡ P.str_uuid j → i ≡ j
str_uuid_injective P i j h =
    ground (arith, P.parse-str_uuid i, P.parse-str_uuid j, ap P.parse_uuid h)

apart :
    (P : Python) (B : Bucket) (i j : ℕ) (rest : Text)
    → starts_with (project_prefix B P i) (codes "projects/" ++ P.str_uuid j ++ 47 ∷ rest) ≡ true
    → i ≡ j
unfolding strip_prefix
apart P B i j rest h = str_uuid_injective P i j (
    same_head (P.str_uuid i) (P.str_uuid j) (47 ∷ []) (47 ∷ rest)
      (P.str_uuid_length i ∙ sym (P.str_uuid_length j)) h)

-- An object of another project survives the purge, unless its key starts with the artifact path of
-- a run of the deleted project.
pub purge_isolated :
    (P : Python) (B : Bucket) (project_id other : ℕ) (db : Db) (rest : Text) (o : B.Objects)
    → project_id ≢ other
    → any
        (λ (run : Run).
          is_truthy (or_else run.artifact_path [])
          && starts_with
              (or_else run.artifact_path [])
              (codes "projects/" ++ P.str_uuid other ++ 47 ∷ rest))
        (runs_of project_id db)
      ≡ false
    → B.get
        (codes "projects/" ++ P.str_uuid other ++ 47 ∷ rest)
        (purge B P project_id (artifact_paths (runs_of project_id db)) o)
      ≡ B.get (codes "projects/" ++ P.str_uuid other ++ 47 ∷ rest) o
purge_isolated P B project_id other db rest o differ h =
    rw (purge_reach P B project_id db (codes "projects/" ++ P.str_uuid other ++ 47 ∷ rest) o) (
      rw h
        (elim (Bool-cases (
          starts_with (project_prefix B P project_id)
            (codes "projects/" ++ P.str_uuid other ++ 47 ∷ rest))) [
              | inl same ↦ absurd (differ (apart P B project_id other rest same))
              | inr not_same ↦ rw not_same refl
            ]))

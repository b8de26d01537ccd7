-- ===== src/Projects/Delete.antt =====
-- What deleting a project leaves of the database, and what its purge reaches.
use chipatelier.Prelude.{
  ℕ, ◌≡◌, refl, sym, subst, Bool, true, false, not, ◌||◌, Option, none, some, List, [], ◌∷◌, ◌++◌,
  arith, ◌==◌, if◌then◌else◌, select, find?, any, is_some, All, All-select, select-All, inl, inr,
  ◌⊎◌,
}
use chipatelier.Http.{ok, err, HttpError}
use chipatelier.Model.{User, Project, Run, Submission, VncSession, Db, purge_project_artifacts}
use chipatelier.Jobs.{get_project as find_project, active_runs}
use chipatelier.Projects.Storage.{Python, Bucket}
use chipatelier.Projects.{
  World, delete_project, delete_rows, runs_of, has_run, has_viewer, artifact_paths,
}

-- Every run has its project, and every submission and every session its run.
pub record Referential (db : Db) : Type 0 where
  pub runs : All (λ (run : Run). is_some (find_project run.project_id db) ≡ true) db.runs
  pub submissions : All (λ (s : Submission). has_run db.runs s.run_id ≡ true) db.submissions
  pub vnc_sessions : All (λ (s : VncSession). has_run db.runs s.run_id ≡ true) db.vnc_sessions

module _ {ℓ} {A : Type ℓ} where
  find?-select-not :
      (key : A → ℕ) (j k : ℕ) (xs : List A)
      → find? (λ a. key a == k) (select (λ a. not (key a == j)) xs)
        ≡ (if j == k then none else find? (λ a. key a == k) xs)
  unfolding find? select
  find?-select-not key j k [] = ground arith
  find?-select-not key j k (x ∷ xs) = ground (arith, find?-select-not key j k xs)

  select-select-not :
      (key : A → ℕ) (j k : ℕ) (xs : List A)
      → select (λ a. key a == k) (select (λ a. not (key a == j)) xs)
        ≡ (if j == k then [] else select (λ a. key a == k) xs)
  unfolding select
  select-select-not key j k [] = ground arith
  select-select-not key j k (x ∷ xs) = ground (arith, select-select-not key j k xs)

  any-split :
      (p q : A → Bool) (xs : List A)
      → any p xs ≡ (any p (select q xs) || any p (select (λ a. not (q a)) xs))
  unfolding any select
  any-split p q [] = refl
  any-split p q (x ∷ xs) = ground (arith, any-split p q xs)

  All-any-false : (p : A → Bool) (xs : List A) → any p xs ≡ false → All (λ a. p a ≡ false) xs
  unfolding any
  All-any-false p [] h = tt
  All-any-false p (x ∷ xs) h = (ground arith, All-any-false p xs (ground arith))

  All-and :
      {P Q R : A → Type 0} (xs : List A)
      → ((a : A) → P a → Q a → R a)
      → All P xs
      → All Q xs
      → All R xs
  All-and [] f h k = tt
  All-and (x ∷ xs) f (px, h) (qx, k) = (f x px qx, All-and xs f h k)

-- A run that is not of the project is still there.
has_run-delete_rows :
    (project_id run_id : ℕ) (db : Db)
    → has_run db.runs run_id ≡ true
    → has_run (runs_of project_id db) run_id ≡ false
    → has_run (delete_rows project_id db).runs run_id ≡ true
has_run-delete_rows project_id run_id db there other = ground (
  arith,
  any-split (λ (run : Run). run.id == run_id) (λ (run : Run). run.project_id == project_id) db.runs,
)

delete_rows-Referential :
    (project_id : ℕ) (db : Db)
    → has_viewer (runs_of project_id db) db ≡ false
    → Referential db
    → Referential (delete_rows project_id db)
delete_rows-Referential project_id db unseen h = record {
  runs =
      All-and (delete_rows project_id db).runs
        (λ run there other.
          ground
            (arith, find?-select-not (λ (p : Project). p.id) project_id run.project_id db.projects))
        (All-select (λ (run : Run). is_some (find_project run.project_id db) ≡ true)
          (λ (run : Run). not (run.project_id == project_id)) db.runs h.runs)
        (select-All (λ (run : Run). not (run.project_id == project_id)) db.runs);
  submissions =
      All-and (delete_rows project_id db).submissions
        (λ s there other. has_run-delete_rows project_id s.run_id db there (ground arith))
        (All-select (λ (s : Submission). has_run db.runs s.run_id ≡ true)
          (λ (s : Submission). not (has_run (runs_of project_id db) s.run_id)) db.submissions
          h.submissions)
        (select-All (λ (s : Submission). not (has_run (runs_of project_id db) s.run_id))
          db.submissions);
  vnc_sessions =
      All-and db.vnc_sessions
        (λ s there other. has_run-delete_rows project_id s.run_id db there other) h.vnc_sessions
        (All-any-false (λ (s : VncSession). has_run (runs_of project_id db) s.run_id)
          db.vnc_sessions unseen);
}

module _ (P : Python) (B : Bucket) (sends : Bool) (project_id : ℕ) (user : User)
    (w : World P B) where
  delete_cases :
      ((delete_project P B sends project_id user w).1 ≡ w)
      ⊎ (((delete_project P B sends project_id user w).1.db ≡ delete_rows project_id w.db)
          × (has_viewer (runs_of project_id w.db) w.db ≡ false))
  unfolding delete_project
  delete_cases = ground arith

  -- If every run has its project, and every submission and session its run, this is still so after a
  -- deletion, whether it succeeds or raises.
  pub delete-Referential :
      Referential w.db → Referential (delete_project P B sends project_id user w).1.db
  delete-Referential h = elim delete_cases [
    | inl same ↦ subst (λ (v : World P B). Referential v.db) (sym same) h
    | inr (gone, unseen) ↦
        subst Referential (sym gone) (delete_rows-Referential project_id w.db unseen h)
  ]

  -- A deletion that raises has changed nothing.
  pub delete_atomic :
      (e : HttpError)
      → (delete_project P B sends project_id user w).0 ≡ err e
      → (delete_project P B sends project_id user w).1 ≡ w
  unfolding delete_project
  delete_atomic e h = ground arith

  -- A project is deleted only by its owner, and only while no run of it is active and no run of it
  -- ever had a viewer. Then the project and its runs are gone, every other project has its row and
  -- its runs, and no object is: the purge is what the broker, if it takes it, is sent.
  pub delete_effect :
      (delete_project P B sends project_id user w).0 ≡ ok tt
      → (project : Project) × (find_project project_id w.db ≡ some project)
        × ((project.user_id == user.id) ≡ true)
        × (active_runs project_id w.db ≡ [])
        × (has_viewer (runs_of project_id w.db) w.db ≡ false)
        × ((k : ℕ)
            → (find_project k (delete_project P B sends project_id user w).1.db
                ≡ (if project_id == k then none else find_project k w.db))
              × (runs_of k (delete_project P B sends project_id user w).1.db
                  ≡ (if project_id == k then [] else runs_of k w.db)))
        × ((delete_project P B sends project_id user w).1.objects ≡ w.objects)
        × ((delete_project P B sends project_id user w).1.sent ≡ (
            if sends
            then w.sent
              ++ purge_project_artifacts project_id (artifact_paths (runs_of project_id w.db)) ∷ []
            else w.sent))
  unfolding delete_project
  delete_effect h = go (find_project project_id w.db) (active_runs project_id w.db) refl refl
    where
      go :
          (o : Option Project) (rows : List Run)
          → find_project project_id w.db ≡ o
          → active_runs project_id w.db ≡ rows
          → (project : Project) × (find_project project_id w.db ≡ some project)
            × ((project.user_id == user.id) ≡ true)
            × (active_runs project_id w.db ≡ [])
            × (has_viewer (runs_of project_id w.db) w.db ≡ false)
            × ((k : ℕ)
                → (find_project k (delete_project P B sends project_id user w).1.db
                    ≡ (if project_id == k then none else find_project k w.db))
                  × (runs_of k (delete_project P B sends project_id user w).1.db
                      ≡ (if project_id == k then [] else runs_of k w.db)))
            × ((delete_project P B sends project_id user w).1.objects ≡ w.objects)
            × ((delete_project P B sends project_id user w).1.sent ≡ (
                if sends
                then w.sent
                  ++ purge_project_artifacts project_id (artifact_paths (runs_of project_id w.db))
                    ∷ []
                else w.sent))
      go none rows e q = absurd (ground arith)
      go (some project) (r ∷ rows) e q = absurd (ground arith)
      go (some project) [] e q = (
        project,
        e,
        ground arith,
        q,
        ground arith,
        λ k. (
          ground (arith, find?-select-not (λ (p : Project). p.id) project_id k w.db.projects),
          ground (arith, select-select-not (λ (r : Run). r.project_id) project_id k w.db.runs),
        ),
        ground arith,
        ground arith,
      )

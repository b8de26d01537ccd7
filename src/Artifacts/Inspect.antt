-- ===== src/Artifacts/Inspect.antt =====
-- The layout query of a run whose files the preview task has uploaded.
use chipatelier.Prelude.{
  ℕ, ◌≡◌, refl, ap, sym, subst, ◌∙◌, true, false, Option, none, some, List, [], ◌∷◌, ◌++◌, arith,
  ◌==◌, any, select, or_else,
}
use chipatelier.Prelude.Text.{Text, codes, eq_text, is_truthy}
use chipatelier.Http.{err, storage_error}
use chipatelier.Model.{User, Run, Project}
use chipatelier.Jobs.{get_project}
use chipatelier.Projects.Storage.{Python, Bucket}
use chipatelier.Projects.{World}
use chipatelier.TileGenerator.{PngEnv, Png, generate_png, run_key}
use chipatelier.TileGenerator.Uploads.{written_keys, png_writes}
use chipatelier.Artifacts.{
  InspectElement, odb_key, odb_of, query_stage, stage_odb_map, click_to_inspect,
}

eq_text-append : (xs ys zs : Text) → eq_text (xs ++ ys) (xs ++ zs) ≡ eq_text ys zs
unfolding eq_text
eq_text-append [] ys zs = refl
eq_text-append (x ∷ xs) ys zs = ground (arith, eq_text-append xs ys zs)

snoc-append : (xs ys : Text) (c : ℕ) → (xs ++ c ∷ []) ++ ys ≡ xs ++ c ∷ ys
snoc-append [] ys c = refl
snoc-append (x ∷ xs) ys c = ap (λ zs. x ∷ zs) (snoc-append xs ys c)

module _ (P : Python) (B : Bucket) (run_id : ℕ) where
  -- A key below the run's own prefix that starts with a slash is none of those that are uploaded.
  slash_key-foreign :
      (file : Text)
      → any (λ k. eq_text k (run_key P B run_id [] ++ 47 ∷ file)) (written_keys P B run_id) ≡ false
  unfolding any eq_text
  slash_key-foreign file = rw (snoc-append (P.str_uuid run_id) (47 ∷ file) 47) (
      ground (
        arith,
        eq_text-append (P.str_uuid run_id) (47 ∷ codes "layout.png") (47 ∷ 47 ∷ file),
        eq_text-append (P.str_uuid run_id) (47 ∷ codes "6_final.gds") (47 ∷ 47 ∷ file),
        eq_text-append (P.str_uuid run_id) (47 ∷ codes "6_final.def") (47 ∷ 47 ∷ file),
      ))

  -- The preview task uploads no layout database: unless one was in the bucket before, the owner's
  -- query of a run with the artifact path that the task recorded fails to download it, whatever
  -- stage the run completed.
  pub inspect_fails :
      (env : PngEnv) (openroad : Text → Option (List InspectElement)) (user : User)
      (before : Png P B) (w : World P B) (run : Run) (project : Project)
      → w.objects ≡ (generate_png P B env run_id before).1.objects
      → B.get (odb_key run) before.objects ≡ none
      → select (λ (r : Run). r.id == run_id) w.db.runs ≡ run ∷ []
      → run.artifact_path ≡ some (run_key P B run_id [])
      → get_project run.project_id w.db ≡ some project
      → (project.user_id == user.id) ≡ true
      → (click_to_inspect P B openroad run_id user w).0 ≡ err storage_error
  unfolding click_to_inspect odb_key
  inspect_fails env openroad user before w run project same gone rows path owned own =
      let file : Text = odb_of (query_stage run) stage_odb_map in
      let foreign : any (λ k. eq_text k (odb_key run)) (written_keys P B run_id) ≡ false =
        subst
          (λ (o : Option Text).
            any (λ k. eq_text k (or_else o [] ++ 47 ∷ file)) (written_keys P B run_id) ≡ false)
          (sym path) (slash_key-foreign file) in
      let no_object : B.get (odb_key run) w.objects ≡ none =
        rw same (png_writes P B env run_id (odb_key run) before foreign ∙ gone) in
      let full : is_truthy (or_else run.artifact_path []) ≡ true = rw path refl in
      rw rows (rw owned (rw own (rw full (rw no_object refl))))

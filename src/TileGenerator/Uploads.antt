-- ===== src/TileGenerator/Uploads.antt =====
-- Which objects the preview task writes.
use chipatelier.Prelude.{ℕ, ◌≡◌, refl, String, false, Option, none, some, List, [], ◌∷◌, arith, any}
use chipatelier.Prelude.Text.{Text, codes, eq_text}
use chipatelier.Projects.Storage.{Python, Bucket}
use chipatelier.TileGenerator.{
  PngEnv, Png, Layout, rendered, no_top, unreadable, generate_png, put_files, run_key,
  upload_artifacts, parse_and_update, recover, without_klayout, with_layout,
}

-- The keys that the task may write for a run.
abbrev pub written_keys : Python → Bucket → ℕ → List Text
written_keys P B run_id =
    run_key P B run_id (codes "layout.png")
    ∷ run_key P B run_id (codes "6_final.gds")
    ∷ run_key P B run_id (codes "6_final.def")
    ∷ []

module _ (P : Python) (B : Bucket) (env : PngEnv) (run_id : ℕ) where
  open B use {Objects, get, put, get-put}

  abbrev Foreign : Text → Type 0
  Foreign key = any (λ k. eq_text k key) (written_keys P B run_id) ≡ false

  put_files-get :
      (files : List (Text × Option Text)) (key : Text) (o : Objects)
      → any (λ (f : Text × Option Text). eq_text f.0 key) files ≡ false
      → get key (put_files P B env.fails files o).1 ≡ get key o
  unfolding any
  put_files-get [] key o h = refl
  put_files-get ((k, none) ∷ files) key o h = put_files-get files key o (ground arith)
  put_files-get ((k, some body) ∷ files) key o h =
      ground (arith, put_files-get files key (put k body o), get-put k key body o)

  upload-get :
      (png : Option Text) (key : Text) (w : Png P B)
      → Foreign key
      → get key (upload_artifacts P B env run_id png w).1.objects ≡ get key w.objects
  unfolding any
  upload-get png key w h =
      put_files-get
        ((run_key P B run_id (codes "layout.png"), png)
          ∷ (run_key P B run_id (codes "6_final.gds"), env.gds_file)
          ∷ (run_key P B run_id (codes "6_final.def"), env.def_file)
          ∷ [])
        key w.objects h

  parse_keeps :
      (results_dir : String × String) (w : Png P B)
      → (parse_and_update P B env run_id results_dir w).1.objects ≡ w.objects
  parse_keeps (platform, design) w = ground arith

  recover-get :
      (results_dir : String × String) (key : Text) (w : Png P B)
      → Foreign key
      → get key (recover P B env run_id results_dir w).1.objects ≡ get key w.objects
  recover-get results_dir key w h =
      rw (parse_keeps results_dir (upload_artifacts P B env run_id none w).1)
        (upload-get none key w h)

  without-get :
      (results_dir : String × String) (key : Text) (w : Png P B)
      → Foreign key
      → get key (without_klayout P B env run_id results_dir w).1.objects ≡ get key w.objects
  without-get results_dir key w h =
      let uploaded : Png P B = (upload_artifacts P B env run_id none w).1 in
      ground (
        arith,
        upload-get none key w h,
        recover-get results_dir key uploaded h,
        parse_keeps results_dir uploaded,
      )

  with-get :
      (results_dir : String × String) (l : Layout) (key : Text) (w : Png P B)
      → Foreign key
      → get key (with_layout P B env run_id results_dir l w).1.objects ≡ get key w.objects
  with-get results_dir unreadable key w h = recover-get results_dir key w h
  with-get results_dir no_top key w h = refl
  with-get results_dir (rendered png) key w h =
      let uploaded : Png P B = (upload_artifacts P B env run_id (some png) w).1 in
      ground (
        arith,
        upload-get (some png) key w h,
        recover-get results_dir key uploaded h,
        parse_keeps results_dir uploaded,
      )

  -- The task writes no object but the run's layout.png, 6_final.gds and 6_final.def, whatever fails.
  pub png_writes :
      (key : Text) (w : Png P B)
      → any (λ k. eq_text k key) (written_keys P B run_id) ≡ false
      → get key (generate_png P B env run_id w).1.objects ≡ get key w.objects
  unfolding generate_png
  png_writes key w h = go env.results_dirs refl
    where
      go :
          (dirs : List (String × String))
          → env.results_dirs ≡ dirs
          → get key (generate_png P B env run_id w).1.objects ≡ get key w.objects
      go [] e = ground arith
      go (d ∷ dirs) e = ground (arith, without-get d key w h, with-get d env.layout key w h)

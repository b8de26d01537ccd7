-- ===== src/Projects/Upload.antt =====
-- Uploading the files of a design.
use chipatelier.Prelude.{
  ℕ, ◌+◌, ◌≡◌, refl, Bool, true, false, Option, none, some, List, [], ◌∷◌, arith, ◌==◌, ==_refl,
  if◌then◌else◌, find?-update_where, length,
}
use chipatelier.Prelude.Text.{Text, eq_text, eq_text_refl}
use chipatelier.Http.{Result, ok, err, storage_error}
use chipatelier.Model.{User, Project}
use chipatelier.Jobs.{get_project as find_project}
use chipatelier.Projects.Storage.{Python, Bucket}
use chipatelier.Projects.{
  World, UploadFile, UploadResponse, store_files, upload_files, all_allowed, file_key,
  source_path_of,
}

-- The bytes of all files.
abbrev pub bytes_of : List UploadFile → ℕ
bytes_of [] = 0
bytes_of (file ∷ files) = length file.content + bytes_of files

-- The content of the last file that is stored under a key.
abbrev pub last_content : Python → Text → Text → List UploadFile → Option Text
last_content P source_path key [] = none
last_content P source_path key (file ∷ files) = elim (last_content P source_path key files) [
  | none ↦ if eq_text (file_key P source_path file) key then some file.content else none
  | some content ↦ some content
]

abbrev pub or_old : Option Text → Option Text → Option Text
or_old none old = old
or_old (some new) old = some new

-- What an accepted upload leaves: the owner's files under the path of the next version, and the
-- project's row that points there.
pub record Uploaded (P : Python) (B : Bucket) (project_id : ℕ) (files : List UploadFile)
    (user : User) (source_path : Text) (w v : World P B) : Type 0 where
  pub project : Project
  pub before : find_project project_id w.db ≡ some project
  pub owner : (project.user_id == user.id) ≡ true
  pub allowed : all_allowed P files ≡ true
  pub path : source_path ≡ source_path_of P project_id (project.verilog_version + 1)
  pub after :
      find_project project_id v.db
      ≡ some (record project {
        storage_bytes = project.storage_bytes + bytes_of files;
        verilog_version = project.verilog_version + 1;
        latest_source_path = some source_path;
      })
  pub stored :
      (key : Text)
      → B.get key v.objects ≡ or_old (last_content P source_path key files) (B.get key w.objects)

module _ (P : Python) (B : Bucket) (fails : Text → Bool) where
  open B use {get, put, get-put}

  -- The loop touches the objects alone, even where it raises.
  store_files_rows :
      (source_path : Text) (files : List UploadFile) (w : World P B)
      → ((store_files P B fails source_path files w).1.db ≡ w.db)
        × ((store_files P B fails source_path files w).1.sent ≡ w.sent)
  store_files_rows source_path [] w = (refl, refl)
  store_files_rows source_path (file ∷ files) w =
      let ih =
        store_files_rows source_path files
          (record w { objects = put (file_key P source_path file) file.content w.objects }) in
      (ground (arith, ih.0), ground (arith, ih.1))

  store_files-ok :
      (source_path : Text) (files : List UploadFile) (w : World P B) (total : ℕ)
      → (store_files P B fails source_path files w).0 ≡ ok total
      → (total ≡ bytes_of files)
        × ((key : Text)
            → get key (store_files P B fails source_path files w).1.objects
              ≡ or_old (last_content P source_path key files) (get key w.objects))
  store_files-ok source_path [] w total h = (ground arith, λ key. refl)
  store_files-ok source_path (file ∷ files) w total h =
      go (store_files P B fails source_path files then_w).0 refl
        (store_files-ok source_path files then_w)
    where
      then_w : World P B
      then_w = record w { objects = put (file_key P source_path file) file.content w.objects }

      go :
          (r : Result ℕ)
          → (store_files P B fails source_path files then_w).0 ≡ r
          → ((rest : ℕ)
              → (store_files P B fails source_path files then_w).0 ≡ ok rest
              → (rest ≡ bytes_of files)
                × ((key : Text)
                    → get key (store_files P B fails source_path files then_w).1.objects
                      ≡ or_old (last_content P source_path key files) (get key then_w.objects)))
          → (total ≡ bytes_of (file ∷ files))
            × ((key : Text)
                → get key (store_files P B fails source_path (file ∷ files) w).1.objects
                  ≡ or_old (last_content P source_path key (file ∷ files)) (get key w.objects))
      go (err e) q ih = absurd (ground arith)
      go (ok rest) q ih =
          let (count, stored) = ih rest q in
          (
            ground arith,
            λ key. ground (
              arith,
              stored key,
              get-put (file_key P source_path file) key file.content w.objects,
            ),
          )

  -- An accepted upload is the owner's, has allowed files only, and stores under each key the last
  -- file that is named so; it counts their bytes and raises the version by one.
  pub upload_effect :
      (project_id : ℕ) (files : List UploadFile) (user : User) (w : World P B)
      (response : UploadResponse)
      → (upload_files P B fails project_id files user w).0 ≡ ok response
      → Uploaded P B project_id files user response.source_path w
          (upload_files P B fails project_id files user w).1
  unfolding upload_files
  upload_effect project_id files user w response h = go (find_project project_id w.db) refl
    where
      go :
          (o : Option Project)
          → find_project project_id w.db ≡ o
          → Uploaded P B project_id files user response.source_path w
              (upload_files P B fails project_id files user w).1
      go none e = absurd (ground arith)
      go (some p) e =
          go' (store_files P B fails (path p) files w).0 refl (store_files-ok (path p) files w)
            (store_files_rows (path p) files w)
        where
          path : Project → Text
          path q = source_path_of P project_id (q.verilog_version + 1)

          go' :
              (r : Result ℕ)
              → (store_files P B fails (path p) files w).0 ≡ r
              → ((total : ℕ)
                  → (store_files P B fails (path p) files w).0 ≡ ok total
                  → (total ≡ bytes_of files)
                    × ((key : Text)
                        → get key (store_files P B fails (path p) files w).1.objects
                          ≡ or_old (last_content P (path p) key files) (get key w.objects)))
              → ((store_files P B fails (path p) files w).1.db ≡ w.db)
                × ((store_files P B fails (path p) files w).1.sent ≡ w.sent)
              → Uploaded P B project_id files user response.source_path w
                  (upload_files P B fails project_id files user w).1
          go' (err x) q stored rows = absurd (ground arith)
          go' (ok total) q stored (same_db, same_sent) =
              let (count, objects) = stored total q in
              record {
                project = p;
                before = e;
                owner = ground arith;
                allowed = ground arith;
                path = ground arith;
                after = ground (
                  arith,
                  ==_refl project_id,
                  find?-update_where (λ (a : Project). a.id)
                      (λ (a : Project). record a {
                        storage_bytes = p.storage_bytes + total;
                        verilog_version = p.verilog_version + 1;
                        latest_source_path = some (path p);
                      })
                      project_id project_id w.db.projects (λ a. refl),
                );
                stored = λ key. ground (arith, objects key);
              }

  -- The owner's upload of allowed files that PutObject interrupts at the second file raises and
  -- changes no row, so the next upload writes under the same version; but the first file stays under
  -- that version's path.
  pub failed_upload_leaves :
      (project_id : ℕ) (first second : UploadFile) (files : List UploadFile) (user : User)
      (w : World P B) (project : Project)
      → find_project project_id w.db ≡ some project
      → (project.user_id == user.id) ≡ true
      → all_allowed P (first ∷ second ∷ files) ≡ true
      → fails (file_key P (source_path_of P project_id (project.verilog_version + 1)) first) ≡ false
      → fails (file_key P (source_path_of P project_id (project.verilog_version + 1)) second) ≡ true
      → ((upload_files P B fails project_id (first ∷ second ∷ files) user w).0 ≡ err storage_error)
        × ((upload_files P B fails project_id (first ∷ second ∷ files) user w).1.db ≡ w.db)
        × (get
              (file_key P (source_path_of P project_id (project.verilog_version + 1)) first)
              (upload_files P B fails project_id (first ∷ second ∷ files) user w).1.objects
            ≡ some first.content)
  unfolding upload_files
  failed_upload_leaves project_id first second files user w project e own allowed works stops =
      let key = file_key P (source_path_of P project_id (project.verilog_version + 1)) first in
      (
        ground arith,
        ground arith,
        ground (arith, get-put key key first.content w.objects, eq_text_refl key),
      )

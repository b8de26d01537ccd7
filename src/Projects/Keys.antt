-- ===== src/Projects/Keys.antt =====
-- The names of the files of a project and the keys of their objects.
use chipatelier.Prelude.{
  ℕ, Bool, true, false, ◌&&◌, ◌||◌, Option, none, some, List, [], ◌∷◌, ◌++◌, ◌==◌, leb, any, length,
  if◌then◌else◌, or_else,
}
use chipatelier.Prelude.Text.{Text, codes, eq_text}
use chipatelier.Projects.Storage.{Python}
use chipatelier.Projects.Schemas.{UploadFile}

-- What stands behind the last `c`, if there is one.
abbrev pub behind_last : ℕ → Text → Option Text
behind_last c [] = none
behind_last c (x ∷ xs) = elim (behind_last c xs) [
  | none ↦ if x == c then some xs else none
  | some rest ↦ some rest
]

abbrev pub ends_with : Text → Text → Bool
ends_with suffix [] = eq_text suffix []
ends_with suffix (x ∷ xs) = eq_text suffix (x ∷ xs) || ends_with suffix xs

-- `_ALLOWED_EXTENSIONS`
unfoldable pub allowed_extensions : List Text
allowed_extensions = codes ".v" ∷ codes ".sv" ∷ codes ".mk" ∷ codes ".sdc" ∷ []

abbrev pub is_verilog : Text → Bool
is_verilog file = ends_with (codes ".v") file || ends_with (codes ".sv") file

-- `a <= b` on `str`
abbrev pub le_text : Text → Text → Bool
le_text [] ys = true
le_text (x ∷ xs) [] = false
le_text (x ∷ xs) (y ∷ ys) = if x == y then le_text xs ys else leb x y

-- `"\n\n".join(parts)`
abbrev pub join_parts : List Text → Text
join_parts [] = []
join_parts (part ∷ []) = part
join_parts (part ∷ part' ∷ parts) = part ++ 10 ∷ 10 ∷ join_parts (part' ∷ parts)

module _ (P : Python) where
  -- `"." + filename.rsplit(".", 1)[-1].lower() if "." in filename else ""`
  abbrev pub suffix_of : Option Text → Text
  suffix_of filename = elim (behind_last 46 (or_else filename [])) [
    | none ↦ []
    | some rest ↦ 46 ∷ P.lower rest
  ]

  abbrev pub is_allowed : UploadFile → Bool
  unfolding allowed_extensions
  is_allowed file = any (λ ext. eq_text ext (suffix_of file.filename)) allowed_extensions

  abbrev pub all_allowed : List UploadFile → Bool
  all_allowed [] = true
  all_allowed (file ∷ files) = is_allowed file && all_allowed files

  -- `f"projects/{project_id}/config/v{version}/config.mk"`
  abbrev pub config_key : ℕ → ℕ → Text
  config_key project_id version =
      codes "projects/"
      ++ P.str_uuid project_id
      ++ codes "/config/v"
      ++ P.str_int version
      ++ codes "/config.mk"

  -- `f"projects/{project_id}/verilog/v{version}"`
  abbrev pub source_path_of : ℕ → ℕ → Text
  source_path_of project_id version =
      codes "projects/" ++ P.str_uuid project_id ++ codes "/verilog/v" ++ P.str_int version

  -- `f"{source_path}/{file.filename}"`
  abbrev pub file_key : Text → UploadFile → Text
  file_key source_path file = source_path ++ 47 ∷ or_else file.filename (codes "None")

  -- `file.split("/")[-1]`, and how many there are if there are several
  abbrev pub shown_name : List Text → Text
  shown_name [] = []
  shown_name (file ∷ []) = or_else (behind_last 47 file) file
  shown_name (file ∷ file' ∷ files) =
      or_else (behind_last 47 file) file
      ++ codes " ("
      ++ P.str_int (length (file ∷ file' ∷ files))
      ++ codes " files)"

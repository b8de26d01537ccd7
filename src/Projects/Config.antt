-- ===== src/Projects/Config.antt =====
-- Saving and reading a project's config.mk.
use chipatelier.Prelude.{
  ℕ, ◌+◌, ◌≡◌, refl, String, Bool, true, false, Option, none, some, arith, ◌==◌, ==_refl,
  find?-update_where,
}
use chipatelier.Prelude.Text.{Text, eq_text, eq_text_refl}
use chipatelier.Http.{HttpError, ok, err}
use chipatelier.Model.{User, Project}
use chipatelier.Jobs.{get_project as find_project}
use chipatelier.Projects.Storage.{Python, Bucket}
use chipatelier.Projects.{
  World, ProjectUpdate, ProjectResponse, rename, update_project, get_project_config, set_project,
  config_key,
}

module _ (P : Python) (B : Bucket) (fails : Text → Bool) (project_id : ℕ) (user : User) where
  open B use {get, put, get-put}

  rename_state :
      (o : Option String) (p : Project) (w : World P B) → (rename P B project_id user o p w).1 ≡ w
  rename_state none p w = refl
  rename_state (some name) p w = ground arith

  rename_result :
      (o : Option String) (p q : Project) (w : World P B)
      → (rename P B project_id user o p w).0 ≡ ok q
      → q ≡ record p { name = q.name }
  rename_result none p q w h = cc
  rename_result (some name) p q w h = ground arith

  abbrev saved_world : String → ℕ → Text → World P B → World P B
  saved_world name version config_mk w = record w {
    db =
        set_project project_id (λ (p : Project). record p { name = name; config_version = version })
          w.db;
    objects = put (config_key P project_id version) (P.encode config_mk) w.objects;
  }

  update_state :
      (body : ProjectUpdate) (config_mk : Text) (w : World P B) (response : ProjectResponse)
      → body.config_mk ≡ some config_mk
      → (update_project P B fails project_id body user w).0 ≡ ok response
      → (project : Project) × (find_project project_id w.db ≡ some project)
        × ((project.user_id == user.id) ≡ true)
        × (response.config_version ≡ project.config_version + 1)
        × ((update_project P B fails project_id body user w).1
            ≡ saved_world response.name response.config_version config_mk w)
  unfolding update_project
  update_state body config_mk w response hc h = go (find_project project_id w.db) refl
    where
      go :
          (o : Option Project)
          → find_project project_id w.db ≡ o
          → (project : Project) × (find_project project_id w.db ≡ some project)
            × ((project.user_id == user.id) ≡ true)
            × (response.config_version ≡ project.config_version + 1)
            × ((update_project P B fails project_id body user w).1
                ≡ saved_world response.name response.config_version config_mk w)
      go none e = absurd (ground arith)
      go (some project) e =
          let same_world = rename_state body.name project w in
          (
            project,
            e,
            ground arith,
            ground (arith, rename_result body.name project),
            ground (arith, rename_result body.name project),
          )

  saved_config :
      (project : Project) (name : String) (version : ℕ) (config_mk : Text) (w : World P B)
      → (version == 0) ≡ false
      → find_project project_id w.db ≡ some project
      → (project.user_id == user.id) ≡ true
      → (get_project_config P B project_id user (saved_world name version config_mk w)).0
        ≡ ok (record { content = config_mk; version = version })
  unfolding get_project_config
  saved_config project name version config_mk w later e own = ground (
    arith,
    ==_refl project_id,
    find?-update_where (λ (p : Project). p.id)
        (λ (p : Project). record p { name = name; config_version = version }) project_id project_id
        w.db.projects (λ p. refl),
    get-put (config_key P project_id version) (config_key P project_id version) (P.encode config_mk)
        w.objects,
    eq_text_refl (config_key P project_id version),
    P.decode-encode config_mk,
  )

  -- What an accepted update with a config saves is what the owner then reads, under the version in
  -- the response, which is one above the version that the project had. Every other object stays as
  -- it was.
  pub update-get_project_config :
      (body : ProjectUpdate) (config_mk : Text) (w : World P B) (response : ProjectResponse)
      → body.config_mk ≡ some config_mk
      → (update_project P B fails project_id body user w).0 ≡ ok response
      → ((get_project_config P B project_id user
            (update_project P B fails project_id body user w).1).0
          ≡ ok (record { content = config_mk; version = response.config_version }))
        × ((project : Project) × (find_project project_id w.db ≡ some project)
            × (response.config_version ≡ project.config_version + 1))
        × ((key : Text)
            → eq_text (config_key P project_id response.config_version) key ≡ false
            → get key (update_project P B fails project_id body user w).1.objects
              ≡ get key w.objects)
  update-get_project_config body config_mk w response hc h =
      let (project, e, own, version, state) = update_state body config_mk w response hc h in
      (
        rw state (
            saved_config project response.name response.config_version config_mk w (ground arith) e
              own),
        (project, e, version),
        λ key other. rw state (
            rw
              (get-put (config_key P project_id response.config_version) key (P.encode config_mk)
                w.objects)
              (rw other refl)),
      )

  -- An update that raises has changed no row and no object.
  pub update_atomic :
      (body : ProjectUpdate) (w : World P B) (e : HttpError)
      → (update_project P B fails project_id body user w).0 ≡ err e
      → (update_project P B fails project_id body user w).1 ≡ w
  unfolding update_project
  update_atomic body w e h = go (find_project project_id w.db) refl
    where
      go :
          (o : Option Project)
          → find_project project_id w.db ≡ o
          → (update_project P B fails project_id body user w).1 ≡ w
      go none q = ground arith
      go (some project) q = ground (arith, rename_state body.name project w)

-- ===== src/LogParser/Markers.antt =====
-- What counts as a stage marker, and which stage it announces.
use chipatelier.Prelude.{
  ℕ, String, ◌≡◌, refl, sym, ◌∙◌, Bool, true, false, Option, none, some, List, [], ◌∷◌, ◌++◌, arith,
  if◌then◌else◌, All,
}
use chipatelier.Prelude.Text.{
  Text, codes, eq_text, eq_text_sound, strip_prefix, is_space, take_token, skip_spaces, NoSpaces,
  take_token-append, take_token_all,
}
use chipatelier.LogParser.{
  is_script, spaces, match_stage_line, match_stage_line_re, search_line, stage_id_map, exact_stage,
  prefix_stage, stage_of_id,
}

-- `Running {script}.tcl, stage {id}`
abbrev pub marker : Text → Text → Text
marker script id = codes "Running " ++ ((script ++ codes ".tcl,") ++ (codes " stage " ++ id))

NoSpaces-script : (script : Text) → NoSpaces script → NoSpaces (script ++ codes ".tcl,")
unfolding is_space
NoSpaces-script [] h = (refl, (refl, (refl, (refl, (refl, tt)))))
NoSpaces-script (c ∷ cs) (hc, h) = (hc, NoSpaces-script cs h)

is_script-append : (c : ℕ) (cs : Text) → is_script ((c ∷ cs) ++ codes ".tcl,") ≡ true
unfolding is_script
is_script-append c [] = refl
is_script-append c (d ∷ cs) = ground (arith, is_script-append d cs)

-- What both patterns see behind `Running `: the script, then a space.
script_token :
    (script id : Text)
    → NoSpaces script
    → take_token ((script ++ codes ".tcl,") ++ (codes " stage " ++ id))
      ≡ (script ++ codes ".tcl,", codes " stage " ++ id)
unfolding is_space
script_token script id h =
    take_token-append (script ++ codes ".tcl,") 32 (codes "stage " ++ id) (NoSpaces-script script h)
      refl

worker_matches_marker :
    (c d : ℕ) (script id : Text)
    → NoSpaces (c ∷ script)
    → NoSpaces (d ∷ id)
    → match_stage_line (marker (c ∷ script) (d ∷ id)) ≡ some (d ∷ id)
unfolding match_stage_line strip_prefix
worker_matches_marker c d script id hs hi =
    rw (script_token (c ∷ script) (d ∷ id) hs)
      (rw (take_token_all (d ∷ id) hi) (rw (is_script-append c script)))

space_32 : is_space 32 ≡ true
unfolding is_space
space_32 = refl

one_space : (c : ℕ) (cs : Text) → is_space c ≡ false → spaces (32 ∷ c ∷ cs) ≡ some (c ∷ cs)
unfolding spaces skip_spaces
one_space c cs h = rw space_32 (rw h)

service_matches_marker :
    (c d : ℕ) (script id : Text)
    → NoSpaces (c ∷ script)
    → NoSpaces (d ∷ id)
    → match_stage_line_re (marker (c ∷ script) (d ∷ id)) ≡ some (d ∷ id)
unfolding match_stage_line_re strip_prefix
service_matches_marker c d script id (hc, hs) (hd, hi) =
    rw (one_space c ((script ++ codes ".tcl,") ++ (codes " stage " ++ d ∷ id)) hc) (
      rw (script_token (c ∷ script) (d ∷ id) (hc, hs)) (
        rw (one_space b's' (codes "tage " ++ d ∷ id) (unfold is_space in refl)) (
          rw (one_space d id hd)
            (rw (take_token_all (d ∷ id) (hd, hi)) (rw (is_script-append c script))))))

search_line_first :
    (match : Text → Option Text) (c : ℕ) (cs id : Text)
    → match (c ∷ cs) ≡ some id
    → search_line match (c ∷ cs) ≡ some id
unfolding search_line
search_line_first match c cs id h = rw (h, search_line)

-- Both patterns, the worker's and the log service's, find the id of every marker line
-- `Running {script}.tcl, stage {id}` whose script and id are non-empty and free of whitespace.
pub marker_found :
    (c d : ℕ) (script id : Text)
    → NoSpaces (c ∷ script)
    → NoSpaces (d ∷ id)
    → (search_line match_stage_line (marker (c ∷ script) (d ∷ id)) ≡ some (d ∷ id))
      × (search_line match_stage_line_re (marker (c ∷ script) (d ∷ id)) ≡ some (d ∷ id))
marker_found c d script id hs hi = (
  search_line_first match_stage_line _ _ (d ∷ id) (worker_matches_marker c d script id hs hi),
  search_line_first match_stage_line_re _ _ (d ∷ id) (service_matches_marker c d script id hs hi),
)

-- Each entry of the table has the stage that the prefix rule gives its key.
exact_stage-prefix :
    (whole : List (Text × String)) (entries : List (Text × String)) (id : Text) {stage : String}
    → All (λ entry. prefix_stage entry.0 whole ≡ some entry.1) entries
    → exact_stage id entries ≡ some stage
    → prefix_stage id whole ≡ some stage
unfolding exact_stage
exact_stage-prefix whole [] id h e = cc
exact_stage-prefix whole ((key, s) ∷ entries) id {stage = stage} (here, h) e =
    go (eq_text key id) refl e (exact_stage-prefix whole entries id h)
  where
    go :
        (b : Bool)
        → eq_text key id ≡ b
        → (if b then some s else exact_stage id entries) ≡ some stage
        → (exact_stage id entries ≡ some stage → prefix_stage id whole ≡ some stage)
        → prefix_stage id whole ≡ some stage
    go true q e' ih = let same : key ≡ id = eq_text_sound key id q in rw (← same) (here ∙ e')
    go false q e' ih = ih e'

-- The table of exact stage ids adds nothing to the prefix rule: for every id, the stage is that of
-- the first entry with the same leading field.
pub stage_of_id-prefix : (id : Text) → stage_of_id id ≡ prefix_stage id stage_id_map
unfolding stage_of_id
stage_of_id-prefix id = go (exact_stage id stage_id_map) refl
  where
    table_agrees : All (λ entry. prefix_stage entry.0 stage_id_map ≡ some entry.1) stage_id_map
    table_agrees = (
      refl,
      (
        refl,
        (refl, (refl, (refl, (refl, (refl, (refl, (refl, (refl, (refl, (refl, (refl, tt))))))))))),
      ),
    )

    go :
        (o : Option String)
        → exact_stage id stage_id_map ≡ o
        → elim o [ some stage ↦ some stage | none ↦ prefix_stage id stage_id_map ]
          ≡ prefix_stage id stage_id_map
    go none e = refl
    go (some stage) e = sym (exact_stage-prefix stage_id_map stage_id_map id table_agrees e)

-- ===== src/Courses/Codes.antt =====
-- Enrollment codes: their alphabet, their uniqueness, and the ten attempts.
use chipatelier.Prelude.{
  ℕ, zero, suc, ◌+◌, ◌*◌, ◌≤◌, ◌<◌, ◌≡◌, ◌≢◌, refl, ap, sym, subst, true, List, [], ◌⊎◌, inl, inr,
  Bool-cases, ◌∷◌, ◌++◌, arith, All, select, length, select-append, length-append, ◌==◌, any,
}
use chipatelier.Prelude.Text.{Text, codes, eq_text, eq_text_sound}
use chipatelier.Http.{ok, err, Result}
use chipatelier.Model.{User, Course, Db, is_privileged}
use chipatelier.Courses.{
  safe_alphabet, Choice, segment, generate_enrollment_code, with_code, attempts,
  generate_unique_code, CourseCreate, create_course, new_course, add_course, require_instructor,
}

-- A draw gives an element of the text that it draws from.
abbrev pub Draws : Choice → Type 0
Draws choice = (k : ℕ) → any (λ c. c == choice k safe_alphabet) safe_alphabet ≡ true

-- Neither O nor I nor 0.
abbrev pub Unambiguous : ℕ → Type 0
Unambiguous c = (c ≢ 79) × (c ≢ 73) × (c ≢ 48)

safe-Unambiguous : (c : ℕ) → any (λ d. d == c) safe_alphabet ≡ true → Unambiguous c
unfolding safe_alphabet select any
safe-Unambiguous c h = (
  λ e. (ground (arith, subst (λ x. any (λ d. d == x) safe_alphabet ≡ true) e h)),
  λ e. (ground (arith, subst (λ x. any (λ d. d == x) safe_alphabet ≡ true) e h)),
  λ e. (ground (arith, subst (λ x. any (λ d. d == x) safe_alphabet ≡ true) e h)),
)

segment_lem :
    (choice : Choice) (from n : ℕ)
    → Draws choice
    → (length (segment choice from n) ≡ n) × All Unambiguous (segment choice from n)
unfolding segment
segment_lem choice from zero h = (refl, tt)
segment_lem choice from (suc n) h =
    let (same, safe) = segment_lem choice (suc from) n h in
    (ap suc same, (safe-Unambiguous (choice from safe_alphabet) (h from), safe))

-- A code is "VLSI-", the year, "-" and four characters, none of which is O, I or 0.
pub code_form :
    (choice : Choice) (year : Text) (from : ℕ)
    → Draws choice
    → (s : Text) × (generate_enrollment_code choice year from
        ≡ codes "VLSI-" ++ (year ++ (codes "-" ++ s)))
      × (length s ≡ 4)
      × All Unambiguous s
unfolding generate_enrollment_code
code_form choice year from h =
    let (same, safe) = segment_lem choice from 4 h in (segment choice from 4, refl, same, safe)

attempts-fresh :
    (choice : Choice) (year : Text) (from n : ℕ) (db : Db) (code : Text)
    → (attempts choice year from n db).0 ≡ ok code
    → with_code code db ≡ []
unfolding attempts
attempts-fresh choice year from zero db code h = absurd (ground arith)
attempts-fresh choice year from (suc n) db code h =
    go (with_code (generate_enrollment_code choice year from) db) refl
      (attempts-fresh choice year (suc (suc (suc (suc from)))) n db code) h
  where
    go :
        (rows : List Course)
        → with_code (generate_enrollment_code choice year from) db ≡ rows
        → ((attempts choice year (suc (suc (suc (suc from)))) n db).0 ≡ ok code
            → with_code code db ≡ [])
        → (attempts choice year from (suc n) db).0 ≡ ok code
        → with_code code db ≡ []
    go [] e ih q = ground arith
    go (c ∷ []) e ih q = ih (ground arith)
    go (c ∷ d ∷ rows) e ih q = absurd (ground arith)

-- No two courses have the same enrollment code.
abbrev pub CodesDistinct : Db → Type 0
CodesDistinct db = (code : Text) → length (with_code code db) ≤ 1

attempts-state :
    (choice : Choice) (year : Text) (from n : ℕ) (db : Db) → (attempts choice year from n db).1 ≡ db
unfolding attempts
attempts-state choice year from zero db = refl
attempts-state choice year from (suc n) db =
    ground (arith, attempts-state choice year (suc (suc (suc (suc from)))) n db)

add_course-CodesDistinct :
    (c : Course) (db : Db)
    → with_code c.enrollment_code db ≡ []
    → CodesDistinct db
    → CodesDistinct (add_course c db)
unfolding select
add_course-CodesDistinct c db fresh distinct code = ground (
  arith,
  distinct code,
  eq_text_sound c.enrollment_code code,
  select-append (λ (d : Course). eq_text d.enrollment_code code) db.courses (c ∷ []),
  length-append (with_code code db)
      (select (λ (d : Course). eq_text d.enrollment_code code) (c ∷ [])),
)

create_course-state :
    (new_id now : ℕ) (choice : Choice) (year : Text) (body : CourseCreate) (user : User) (db : Db)
    → ((create_course new_id now choice year body user db).1 ≡ db)
      ⊎ ((code : Text) × ((attempts choice year 0 10 db).0 ≡ ok code)
          × ((create_course new_id now choice year body user db).1
              ≡ add_course (new_course new_id now user body code) db))
unfolding create_course require_instructor generate_unique_code
create_course-state new_id now choice year body user db = go (attempts choice year 0 10 db).0 refl
  where
    go :
        (r : Result Text)
        → (attempts choice year 0 10 db).0 ≡ r
        → ((create_course new_id now choice year body user db).1 ≡ db)
          ⊎ ((code : Text) × ((attempts choice year 0 10 db).0 ≡ ok code)
              × ((create_course new_id now choice year body user db).1
                  ≡ add_course (new_course new_id now user body code) db))
    go (err e) q = elim (Bool-cases (is_privileged user.role)) [
      | inl allowed ↦ inl (rw allowed (rw (attempts-state choice year 0 10 db) (rw q)))
      | inr refused ↦ inl (rw refused)
    ]
    go (ok code) q = elim (Bool-cases (is_privileged user.role)) [
      | inl allowed ↦ inr (code, q, rw allowed (rw (attempts-state choice year 0 10 db) (rw q)))
      | inr refused ↦ inl (rw refused)
    ]

-- Creating a course keeps the enrollment codes of all courses distinct, whatever it answers.
pub create_course-CodesDistinct :
    (new_id now : ℕ) (choice : Choice) (year : Text) (body : CourseCreate) (user : User) (db : Db)
    → CodesDistinct db
    → CodesDistinct (create_course new_id now choice year body user db).1
create_course-CodesDistinct new_id now choice year body user db distinct =
    elim (create_course-state new_id now choice year body user db) [
      | inl same ↦ subst CodesDistinct (sym same) distinct
      | inr (code, q, added) ↦ subst CodesDistinct (sym added) (
          add_course-CodesDistinct (new_course new_id now user body code) db
            (attempts-fresh choice year 0 10 db code q) distinct)
    ]

attempts_enough :
    (choice : Choice) (year : Text) (from n k : ℕ) (db : Db)
    → CodesDistinct db
    → k < n
    → with_code (generate_enrollment_code choice year (from + 4 * k)) db ≡ []
    → (code : Text) × ((attempts choice year from n db).0 ≡ ok code)
unfolding attempts
attempts_enough choice year from zero k db distinct lt fresh = absurd (omega arith)
attempts_enough choice year from (suc n) k db distinct lt fresh =
    go (with_code (generate_enrollment_code choice year from) db) refl k lt fresh
      (attempts_enough choice year (suc (suc (suc (suc from)))) n)
  where
    Later : Type 0
    Later =
        (j : ℕ) (db : Db)
        → CodesDistinct db
        → j < n
        → with_code (generate_enrollment_code choice year (suc (suc (suc (suc from))) + 4 * j)) db
          ≡ []
        → (code : Text) × ((attempts choice year (suc (suc (suc (suc from)))) n db).0 ≡ ok code)

    go :
        (rows : List Course)
        → with_code (generate_enrollment_code choice year from) db ≡ rows
        → (k : ℕ) → k < suc n
        → with_code (generate_enrollment_code choice year (from + 4 * k)) db ≡ []
        → Later
        → (code : Text) × ((attempts choice year from (suc n) db).0 ≡ ok code)
    go [] e k lt fresh later = (generate_enrollment_code choice year from, ground arith)
    go (c ∷ d ∷ rows) e k lt fresh later =
        absurd (ground (arith, distinct (generate_enrollment_code choice year from)))
    go (c ∷ []) e zero lt fresh later =
        let first : from + 4 * 0 ≡ from = omega arith in
        let none_yet : with_code (generate_enrollment_code choice year from) db ≡ [] =
          subst (λ m. with_code (generate_enrollment_code choice year m) db ≡ []) first fresh in
        absurd (ground arith)
    go (c ∷ []) e (suc j) lt fresh later =
        let next : from + 4 * suc j ≡ suc (suc (suc (suc from))) + 4 * j = omega arith in
        let fresh_later =
          subst (λ m. with_code (generate_enrollment_code choice year m) db ≡ []) next fresh in
        let (code, q) = later j db distinct (omega arith) fresh_later in (code, ground arith)

-- With distinct codes, one fresh code among the ten that are drawn is enough for a code.
pub generate_enough :
    (choice : Choice) (year : Text) (k : ℕ) (db : Db)
    → CodesDistinct db
    → k < 10
    → with_code (generate_enrollment_code choice year (4 * k)) db ≡ []
    → (code : Text) × ((generate_unique_code choice year db).0 ≡ ok code)
unfolding generate_unique_code
generate_enough choice year k db distinct lt fresh =
    let start : 4 * k ≡ 0 + 4 * k = omega arith in
    attempts_enough choice year 0 10 k db distinct lt
      (subst (λ m. with_code (generate_enrollment_code choice year m) db ≡ []) start fresh)

-- ===== src/Courses/Grades.antt =====
-- Who may see a course's grades, and what the dashboard's rows agree on.
use chipatelier.Prelude.{
  ℕ, ◌≡◌, refl, subst, Bool, true, false, Option, none, some, List, [], ◌∷◌, arith, ◌↔◌, ◌⊎◌, ◌==◌,
  ◌&&◌, All, map, select, order_by, length, leb, String,
}
use chipatelier.Http.{ok, err, HttpError}
use chipatelier.Model.{User, Course, Submission, Db, is_privileged, is_admin, Run}
use chipatelier.Courses.{get_course, require_instructor}
use chipatelier.Courses.Dashboard.{
  StudentRow, Dashboard, student_row, runs_of, non_empty, first_status, assignment_ids, among,
  enrolled, get_course_dashboard, export_course_dashboard_csv,
}
use chipatelier.Submissions.{best_score}

-- A row counts no run exactly if it shows no last status, and shows no score without a submission.
abbrev pub Consistent : StudentRow → Type 0
Consistent row =
    (row.has_submission ≡ false → row.score ≡ none)
    × (row.run_count ≡ 0 → row.last_run_status ≡ none)

student_row-Consistent :
    (course_id : ℕ) (db : Db) (student : User) → Consistent (student_row course_id db student)
unfolding student_row best_score order_by
student_row-Consistent course_id db student = (
  unsubmitted (
      select (λ (s : Submission). s.user_id == student.id && among (assignment_ids course_id db) s)
        db.submissions),
  idle (runs_of student.id db),
)
  where
    unsubmitted : (mine : List Submission) → non_empty mine ≡ false → best_score mine ≡ none
    unsubmitted [] h = refl
    unsubmitted (s ∷ ss) h = absurd (ground arith)

    idle :
        (runs : List Run)
        → length runs ≡ 0
        → first_status (order_by (λ (r s : Run). leb s.created_at r.created_at) runs) ≡ none
    idle [] h = refl
    idle (r ∷ rs) h = absurd (omega arith)

map-Consistent :
    (course_id : ℕ) (db : Db) (students : List User)
    → All Consistent (map (student_row course_id db) students)
map-Consistent course_id db [] = tt
map-Consistent course_id db (u ∷ us) =
    (student_row-Consistent course_id db u, map-Consistent course_id db us)

module _ (collate : Option String → Option String → Bool) (zcard : Option ℕ) (course_id : ℕ)
    (user : User) (db : Db) where
  -- The dashboard is shown only to an admin or the instructor of an existing course. Its rows show
  -- no score without a submission and no last status without a run; its count of running jobs is 0
  -- whatever runs.
  pub dashboard_lem :
      (d : Dashboard)
      → (get_course_dashboard collate zcard course_id user db).0 ≡ ok d
      → (course : Course) × (get_course course_id db ≡ some course)
        × ((is_admin user.role ≡ true)
            ⊎ (is_privileged user.role ≡ true) × (course.instructor_id ≡ user.id))
        × All Consistent d.students
        × (d.running ≡ 0)
  unfolding get_course_dashboard require_instructor
  dashboard_lem d h = go (get_course course_id db) refl
    where
      go :
          (o : Option Course)
          → get_course course_id db ≡ o
          → (course : Course) × (get_course course_id db ≡ some course)
            × ((is_admin user.role ≡ true)
                ⊎ (is_privileged user.role ≡ true) × (course.instructor_id ≡ user.id))
            × All Consistent d.students
            × (d.running ≡ 0)
      go none e = absurd (ground arith)
      go (some c) e =
          let rows : map (student_row course_id db) (enrolled collate course_id db) ≡ d.students =
            ground arith in
          (
            c,
            e,
            ground arith,
            subst (All Consistent) rows
                (map-Consistent course_id db (enrolled collate course_id db)),
            ground arith,
          )

  -- The dashboard and the export refuse the same requests, with the same errors, and neither
  -- changes the database.
  pub export_guard :
      (e : HttpError)
      → (((get_course_dashboard collate zcard course_id user db).0 ≡ err e)
          ↔ ((export_course_dashboard_csv collate course_id user db).0 ≡ err e))
        × ((get_course_dashboard collate zcard course_id user db).1 ≡ db)
        × ((export_course_dashboard_csv collate course_id user db).1 ≡ db)
  unfolding get_course_dashboard export_course_dashboard_csv require_instructor
  export_guard e = ((λ h. ground arith, λ h. ground arith), ground arith, ground arith)

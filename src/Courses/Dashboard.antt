-- ===== src/Courses/Dashboard.antt =====
-- The instructor's dashboard and its export: backend/app/api/routes/courses.py.
-- `collate` is the database's order of display names; the CSV text itself is Python's `csv`.
use chipatelier.Prelude.{
  ℕ, String, Bool, true, false, not, ◌&&◌, ◌||◌, Option, none, some, List, [], ◌∷◌, ◌==◌, leb,
  select, length, if◌then◌else◌, str_eq, or_else, order_by, join, map, any,
}
use chipatelier.Prelude.Int.{ℤ}
use chipatelier.Http.{Handler, pure, require, found, gets, ◌>>=◌, ◌>>◌, forbidden, course_not_found}
use chipatelier.Model.{
  User, Project, Run, RunStatus, Course, CourseEnrollment, Assignment, Submission, Db, is_admin,
}
use chipatelier.Submissions.{best_score}
use chipatelier.Courses.{require_instructor, get_course}

pub record StudentRow : Type 0 where
  pub display_name : String
  pub user_id : ℕ
  pub run_count : ℕ
  pub last_run_status : Option RunStatus
  pub has_submission : Bool
  pub score : Option ℤ

pub record Dashboard : Type 0 where
  pub students : List StudentRow
  pub queued : ℕ
  pub running : ℕ

-- `student.display_name or student.email`: an empty name is falsy
abbrev pub name_of : User → String
name_of user =
    if str_eq (or_else user.display_name "") "" then user.email else or_else user.display_name ""

-- `row[0] for row in …`: the ids of the course's assignments
unfoldable pub assignment_ids : ℕ → Db → List ℕ
assignment_ids course_id db =
    map (λ (a : Assignment). a.id)
      (select (λ (a : Assignment). a.course_id == course_id) db.assignments)

-- `Submission.assignment_id.in_(course_assignment_ids)`
abbrev pub among : List ℕ → Submission → Bool
among ids s = any (λ id. id == s.assignment_id) ids

-- SELECT … FROM runs JOIN projects … WHERE projects.user_id = …
unfoldable pub runs_of : ℕ → Db → List Run
runs_of user_id db =
    map (λ (row : Run × Project). row.0)
      (select (λ (row : Run × Project). (row.1).user_id == user_id)
        (join (λ (r : Run) (p : Project). r.project_id == p.id) db.runs db.projects))

abbrev pub first_status : List Run → Option RunStatus
first_status [] = none
first_status (run ∷ runs) = some run.status

abbrev pub non_empty : List Submission → Bool
non_empty [] = false
non_empty (s ∷ ss) = true

-- The loop body: one enrolled student's row.
unfoldable pub student_row : ℕ → Db → User → StudentRow
unfolding assignment_ids runs_of
student_row course_id db student =
    let runs = runs_of student.id db in
    let mine =
      select (λ (s : Submission). s.user_id == student.id && among (assignment_ids course_id db) s)
        db.submissions in
    record {
      display_name = name_of student;
      user_id = student.id;
      run_count = length runs;
      last_run_status = first_status (order_by (λ (r s : Run). leb s.created_at r.created_at) runs);
      has_submission = non_empty mine;
      score = best_score mine;
    }

abbrev pub may_see : Course → User → Bool
may_see course user = course.instructor_id == user.id || is_admin user.role

module _ (collate : Option String → Option String → Bool) where
  -- The enrolled users by display name.
  unfoldable pub enrolled : ℕ → Db → List User
  enrolled course_id db =
      order_by (λ (u v : User). collate u.display_name v.display_name)
        (map (λ (row : CourseEnrollment × User). row.1)
          (join (λ (e : CourseEnrollment) (u : User). u.id == e.user_id)
            (select (λ (e : CourseEnrollment). e.course_id == course_id) db.enrollments) db.users))

  -- GET /courses/{course_id}/dashboard; `zcard` is Redis's answer, `none` if the call raises
  unfoldable pub get_course_dashboard : Option ℕ → ℕ → User → Handler Db Dashboard
  unfolding require_instructor enrolled student_row
  get_course_dashboard zcard course_id user = do
    require_instructor user
    course ← gets (get_course course_id)
    course ← found course course_not_found
    require (may_see course user) forbidden
    students ← gets (λ (db : Db). map (student_row course_id db) (enrolled course_id db))
    pure (record { students = students; queued = or_else zcard 0; running = 0 })

  -- The rows of the CSV file, below its header.
  pub record ExportRow : Type 0 where
    pub student_display_name : String
    pub submission_date : ℕ
    pub score : Option ℤ

  abbrev pub export_row : Submission × User → ExportRow
  export_row (s, student) = record {
    student_display_name = name_of student;
    submission_date = s.submitted_at;
    score = s.score;
  }

  -- By display name, then newest first.
  abbrev pub export_before : Submission × User → Submission × User → Bool
  export_before (s, u) (t, v) =
      collate u.display_name v.display_name
      && (not (collate v.display_name u.display_name) || leb t.submitted_at s.submitted_at)

  -- GET /courses/{course_id}/dashboard/export
  unfoldable pub export_course_dashboard_csv : ℕ → User → Handler Db (List ExportRow)
  unfolding require_instructor assignment_ids
  export_course_dashboard_csv course_id user = do
    require_instructor user
    course ← gets (get_course course_id)
    course ← found course course_not_found
    require (may_see course user) forbidden
    gets (λ (db : Db). map export_row (
        order_by export_before (
          join (λ (s : Submission) (u : User). u.id == s.user_id)
            (select (among (assignment_ids course_id db)) db.submissions) db.users)))

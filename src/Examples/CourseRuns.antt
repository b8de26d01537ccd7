-- ===== src/Examples/CourseRuns.antt =====
-- The theorems on courses and assignments, at one course.
use chipatelier.Prelude.{
  ℕ, ◌≡◌, inl, inr, refl, true, false, none, some, ◌==◌, ◌&&◌, arith, if◌then◌else◌, find?, select,
  map_option, Bool-cases,
}
use chipatelier.Prelude.Text.{codes, eq_text}
use chipatelier.Model.{Course}
use chipatelier.Courses.{Choice, create_course, get_course, enroll_in_course, require_instructor}
use chipatelier.Courses.Codes.{CodesDistinct, create_course-CodesDistinct}
use chipatelier.Courses.Enrollment.{EnrolledOnce, enroll-EnrolledOnce}
use chipatelier.Submissions.{get_assignment}
use chipatelier.Assignments.{
  toggle_assignment_open, sees_all, set_open, require_course_instructor, get_course_or_404,
  get_assignment_or_404,
}
use chipatelier.Assignments.Access.{toggle_effect}
use chipatelier.Examples.Data.{teacher, vlsi, lab, sample_db}

-- Every draw is the letter B.
abbrev draw_b : Choice
draw_b k xs = 66

sample-CodesDistinct : CodesDistinct sample_db
unfolding select
sample-CodesDistinct code = elim (Bool-cases (eq_text vlsi.enrollment_code code)) [
  | inl e ↦ ground arith
  | inr e ↦ ground arith
]

create_course-CodesDistinct_example :
    CodesDistinct
      (create_course 6 7 draw_b
        (codes "2025")
        (record { name = "VLSI 2"; term = none })
        teacher
        sample_db).1
create_course-CodesDistinct_example =
    create_course-CodesDistinct 6 7 draw_b (codes "2025") (record { name = "VLSI 2"; term = none })
      teacher sample_db sample-CodesDistinct

sample-EnrolledOnce : EnrolledOnce sample_db
unfolding select
sample-EnrolledOnce c u = elim (Bool-cases (5 == c && 1 == u)) [
  | inl e ↦ ground arith
  | inr e ↦ ground arith
]

enroll-EnrolledOnce_example :
    EnrolledOnce (enroll_in_course (λ db. db) 7 5 (codes "VLSI-2025-AAAA") teacher sample_db).1
enroll-EnrolledOnce_example =
    enroll-EnrolledOnce (λ db. db) 7 5 (codes "VLSI-2025-AAAA") teacher sample_db (λ h. h)
      sample-EnrolledOnce

toggle_effect_example :
    ((course : Course) × (get_course 5 sample_db ≡ some course) × (sees_all course teacher ≡ true))
    × ((k : ℕ)
        → get_assignment k (toggle_assignment_open 20 false teacher sample_db).1 ≡ (
            if 20 == k
            then map_option (set_open false) (get_assignment k sample_db)
            else get_assignment k sample_db))
unfolding toggle_assignment_open get_course_or_404 get_assignment_or_404 require_course_instructor
    require_instructor find?
toggle_effect_example = toggle_effect teacher sample_db 20 false (set_open false lab) refl

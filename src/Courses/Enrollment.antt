-- ===== src/Courses/Enrollment.antt =====
-- Enrolling: no user is enrolled twice in a course, whatever happens in between.
use chipatelier.Prelude.{
  find?-none-select, ℕ, ◌≤◌, ◌≡◌, ◌⊎◌, ◌&&◌, [], ◌∷◌, arith, select, length, select-append,
  length-append, ◌==◌,
}
use chipatelier.Prelude.Text.{Text}
use chipatelier.Http.{err, HttpError}
use chipatelier.Model.{User, CourseEnrollment, Db}
use chipatelier.Courses.{enroll_in_course}
use chipatelier.Submissions.{enrollments_of}

-- No user has two enrollments in one course.
abbrev pub EnrolledOnce : Db → Type 0
EnrolledOnce db = (course_id user_id : ℕ) → length (enrollments_of course_id user_id db) ≤ 1

module _ (others : Db → Db) (now course_id : ℕ) (code : Text) (user : User) (db : Db) where
  -- An enrollment that is refused writes nothing of its own: the database is as it was, or as the
  -- other requests left it.
  pub enroll_atomic :
      (e : HttpError)
      → (enroll_in_course others now course_id code user db).0 ≡ err e
      → ((enroll_in_course others now course_id code user db).1 ≡ db)
        ⊎ ((enroll_in_course others now course_id code user db).1 ≡ others db)
  unfolding enroll_in_course
  enroll_atomic e h = ground arith

  -- If the other requests that commit in the meantime keep every user enrolled at most once in
  -- each course, then so does this one, whatever it answers.
  pub enroll-EnrolledOnce :
      (EnrolledOnce db → EnrolledOnce (others db))
      → EnrolledOnce db
      → EnrolledOnce (enroll_in_course others now course_id code user db).1
  unfolding enroll_in_course select
  enroll-EnrolledOnce keeps once c u = ground (
    arith,
    once c u,
    keeps once c u,
    find?-none-select (λ (e : CourseEnrollment). e.course_id == course_id && e.user_id == user.id)
        (others db).enrollments,
    select-append (λ (e : CourseEnrollment). e.course_id == c && e.user_id == u)
        (others db).enrollments
        (record { course_id = course_id; user_id = user.id; enrolled_at = now } ∷ []),
    length-append (enrollments_of c u (others db)) (
        select (λ (e : CourseEnrollment). e.course_id == c && e.user_id == u)
          (record { course_id = course_id; user_id = user.id; enrolled_at = now } ∷ [])),
  )

-- ===== src/Courses.antt =====
-- Courses: backend/app/api/routes/courses.py.
pub mod Codes
pub mod Enrollment
pub mod Dashboard
pub mod Grades
use chipatelier.Prelude.{
  ℕ, zero, suc, String, Bool, true, false, not, ◌&&◌, ◌||◌, Option, none, some, List, [], ◌∷◌, ◌++◌,
  ◌==◌, leb, select, find?, length, if◌then◌else◌, is_some, or_else, order_by, join, map,
}
use chipatelier.Prelude.Int.{ℤ}
use chipatelier.Prelude.Text.{Text, codes, eq_text}
use chipatelier.Http.{
  Handler, pure, raise, require, found, scalar_one_or_none, gets, modify, ◌>>=◌, ◌>>◌, forbidden,
  course_not_found, invalid_enrollment_code, already_enrolled, code_exhausted,
}
use chipatelier.Model.{
  User, Project, Run, RunStatus, Course, CourseEnrollment, Assignment, Submission, Db,
  is_privileged, is_admin,
}
use chipatelier.Submissions.{best_score, enrollments_of}

-- `_SAFE_ALPHABET`
unfoldable pub safe_alphabet : Text
safe_alphabet =
    select (λ c. not (c == 79) && not (c == 73)) (codes "ABCDEFGHIJKLMNOPQRSTUVWXYZ")
    ++ select (λ c. not (c == 48)) (codes "0123456789")

-- The draws of `secrets.choice`, by their number since the start of the request.
abbrev pub Choice : Type 0
Choice = ℕ → Text → ℕ

-- `"".join(secrets.choice(_SAFE_ALPHABET) for _ in range(n))`, from the given draw on
unfoldable pub segment : Choice → ℕ → ℕ → Text
segment choice from zero = []
segment choice from (suc n) = choice from safe_alphabet ∷ segment choice (suc from) n

-- `year` is the current year's decimal digits
unfoldable pub generate_enrollment_code : Choice → Text → ℕ → Text
unfolding segment
generate_enrollment_code choice year from =
    codes "VLSI-" ++ (year ++ (codes "-" ++ segment choice from 4))

abbrev pub with_code : Text → Db → List Course
with_code code db = select (λ (c : Course). eq_text c.enrollment_code code) db.courses

-- The loop of `_generate_unique_code`, with the attempts that are left.
unfoldable pub attempts : Choice → Text → ℕ → ℕ → Handler Db Text
unfolding generate_enrollment_code
attempts choice year from zero = raise code_exhausted
attempts choice year from (suc n) = do
  let code = generate_enrollment_code choice year from
  rows ← gets (with_code code)
  existing ← scalar_one_or_none rows
  if is_some existing then attempts choice year (suc (suc (suc (suc from)))) n else pure code

-- `_generate_unique_code`
unfoldable pub generate_unique_code : Choice → Text → Handler Db Text
unfolding attempts
generate_unique_code choice year = attempts choice year 0 10

-- `_require_instructor`
unfoldable pub require_instructor : User → Handler Db (Unit {0})
require_instructor user = require (is_privileged user.role) forbidden

pub record CourseCreate : Type 0 where
  pub name : String
  pub term : Option String

abbrev pub new_course : ℕ → ℕ → User → CourseCreate → Text → Course
new_course id now user body code = record {
  id = id;
  instructor_id = user.id;
  name = body.name;
  term = body.term;
  enrollment_code = code;
  created_at = now;
}

abbrev pub add_course : Course → Db → Db
add_course course db = record db { courses = db.courses ++ course ∷ [] }

-- POST /courses
unfoldable pub create_course : ℕ → ℕ → Choice → Text → CourseCreate → User → Handler Db Course
unfolding require_instructor generate_unique_code
create_course new_id now choice year body user = do
  require_instructor user
  code ← generate_unique_code choice year
  let course = new_course new_id now user body code
  modify (add_course course)
  pure course

abbrev pub newer : Course → Course → Bool
newer c d = leb d.created_at c.created_at

-- GET /courses
unfoldable pub list_courses : User → Handler Db (List Course)
list_courses user =
    if is_privileged user.role
    then gets (λ (db : Db).
      order_by newer (select (λ (c : Course). c.instructor_id == user.id) db.courses))
    else gets (λ (db : Db). order_by newer (
        map (λ (row : Course × CourseEnrollment). row.0)
          (join (λ (c : Course) (e : CourseEnrollment). e.course_id == c.id && e.user_id == user.id)
            db.courses db.enrollments)))

abbrev pub get_course : ℕ → Db → Option Course
get_course course_id db = find? (λ (c : Course). c.id == course_id) db.courses

pub record EnrollResponse : Type 0 where
  pub course_id : ℕ
  pub course_name : String
  pub enrolled_at : ℕ

-- POST /courses/{course_id}/enroll; `others` is what other requests commit between the check for
-- a duplicate and the commit, where the constraint `uq_enrollment` raises `IntegrityError`.
unfoldable pub enroll_in_course : (Db → Db) → ℕ → ℕ → Text → User → Handler Db EnrollResponse
enroll_in_course others now course_id enrollment_code user = do
  course ← gets (get_course course_id)
  course ← found course course_not_found
  require (eq_text course.enrollment_code enrollment_code) invalid_enrollment_code
  rows ← gets (enrollments_of course_id user.id)
  existing ← scalar_one_or_none rows
  require (not (is_some existing)) already_enrolled
  modify others
  taken ← gets (λ (db : Db).
      find? (λ (e : CourseEnrollment). e.course_id == course_id && e.user_id == user.id)
        db.enrollments)
  require (not (is_some taken)) already_enrolled
  modify (λ (db : Db). record db {
    enrollments =
        db.enrollments
        ++ record { course_id = course_id; user_id = user.id; enrolled_at = now } ∷ [];
  })
  pure (record { course_id = course.id; course_name = course.name; enrolled_at = now })

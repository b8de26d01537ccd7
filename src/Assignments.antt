-- ===== src/Assignments.antt =====
-- Assignments: backend/app/api/routes/assignments.py.
-- The columns that no operation reads (description, pdk, editable_params, due_at, …) are left out.
pub mod Access
use chipatelier.Prelude.{
  ℕ, String, Bool, true, false, not, ◌&&◌, ◌||◌, Option, none, some, List, [], ◌∷◌, ◌++◌, ◌==◌, leb,
  select, find?, update_where, if◌then◌else◌, is_some, order_by,
}
use chipatelier.Http.{
  Handler, pure, require, found, scalar_one_or_none, gets, modify, ◌>>=◌, ◌>>◌, forbidden,
  course_not_found, assignment_not_found, not_enrolled,
}
use chipatelier.Model.{User, Course, Assignment, Db, Rules, is_admin, is_instructor}
use chipatelier.Submissions.{get_assignment, enrollments_of}
use chipatelier.Courses.{get_course, require_instructor}

-- `_get_course_or_404`
unfoldable pub get_course_or_404 : ℕ → Handler Db Course
get_course_or_404 course_id = do course ← gets (get_course course_id); found course course_not_found

-- `_get_assignment_or_404`
unfoldable pub get_assignment_or_404 : ℕ → Handler Db Assignment
get_assignment_or_404 assignment_id = do
  assignment ← gets (get_assignment assignment_id)
  found assignment assignment_not_found

-- `_require_course_instructor`
unfoldable pub require_course_instructor : Course → User → Handler Db (Unit {0})
require_course_instructor course user =
    if is_admin user.role
    then pure tt
    else require (not (not (is_instructor user.role) || not (course.instructor_id == user.id)))
        forbidden

pub record AssignmentCreate : Type 0 where
  pub title : String
  pub locked_params : List (String × String)
  pub checkpoint_rules : Rules

abbrev pub new_assignment : ℕ → ℕ → ℕ → AssignmentCreate → Assignment
new_assignment id now course_id body = record {
  id = id;
  course_id = course_id;
  title = body.title;
  locked_params = body.locked_params;
  checkpoint_rules = body.checkpoint_rules;
  is_open = false;
  created_at = now;
}

-- POST /courses/{course_id}/assignments
unfoldable pub create_assignment : ℕ → ℕ → ℕ → AssignmentCreate → User → Handler Db Assignment
unfolding require_instructor get_course_or_404 require_course_instructor
create_assignment new_id now course_id body user = do
  require_instructor user
  course ← get_course_or_404 course_id
  require_course_instructor course user
  let assignment = new_assignment new_id now course_id body
  modify (λ (db : Db). record db { assignments = db.assignments ++ assignment ∷ [] })
  pure assignment

abbrev pub sees_all : Course → User → Bool
sees_all course user =
    is_admin user.role || (is_instructor user.role && course.instructor_id == user.id)

-- GET /courses/{course_id}/assignments
unfoldable pub list_assignments : ℕ → User → Handler Db (List Assignment)
unfolding get_course_or_404
list_assignments course_id user = do
  course ← get_course_or_404 course_id
  if sees_all course user
      then gets (λ (db : Db).
        order_by (λ (a b : Assignment). leb a.created_at b.created_at)
          (select (λ (a : Assignment). a.course_id == course_id) db.assignments))
      else do
        rows ← gets (enrollments_of course_id user.id)
        enrollment ← scalar_one_or_none rows
        require (is_some enrollment) not_enrolled
        gets (λ (db : Db).
            order_by (λ (a b : Assignment). leb a.created_at b.created_at)
              (select (λ (a : Assignment). a.course_id == course_id && a.is_open) db.assignments))

abbrev pub set_open : Bool → Assignment → Assignment
set_open is_open a = record a { is_open = is_open }

-- PATCH /assignments/{assignment_id}/open
unfoldable pub toggle_assignment_open : ℕ → Bool → User → Handler Db Assignment
unfolding require_instructor get_assignment_or_404 get_course_or_404 require_course_instructor
toggle_assignment_open assignment_id is_open user = do
  require_instructor user
  assignment ← get_assignment_or_404 assignment_id
  course ← get_course_or_404 assignment.course_id
  require_course_instructor course user
  modify (λ (db : Db). record db {
    assignments =
        update_where (λ (a : Assignment). a.id == assignment_id) (set_open is_open) db.assignments;
  })
  pure (set_open is_open assignment)

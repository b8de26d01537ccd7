-- ===== src/Assignments/Access.antt =====
-- Who may create, open and see assignments.
use chipatelier.Prelude.{
  ℕ, ◌≡◌, refl, subst, Bool, true, false, ◌&&◌, Option, none, some, List, arith, ◌==◌, leb, select,
  find?-update_where, if◌then◌else◌, All, All-order_by, order_by, select-All, map_option,
}
use chipatelier.Http.{ok}
use chipatelier.Model.{User, Course, Assignment, Db}
use chipatelier.Courses.{get_course, require_instructor}
use chipatelier.Submissions.{get_assignment}
use chipatelier.Assignments.{
  list_assignments, toggle_assignment_open, sees_all, set_open, get_course_or_404,
  get_assignment_or_404, require_course_instructor,
}

module _ (user : User) (db : Db) where
  -- Opening or closing an assignment succeeds only for an admin or the instructor of its course,
  -- and then every lookup finds it with the new flag and every other assignment as it was.
  pub toggle_effect :
      (assignment_id : ℕ) (is_open : Bool) (a : Assignment)
      → (toggle_assignment_open assignment_id is_open user db).0 ≡ ok a
      → ((course : Course) × (get_course a.course_id db ≡ some course)
          × (sees_all course user ≡ true))
        × ((k : ℕ)
            → get_assignment k (toggle_assignment_open assignment_id is_open user db).1 ≡ (
                if assignment_id == k
                then map_option
                    (λ (x : Assignment). record x { is_open = is_open })
                    (get_assignment k db)
                else get_assignment k db))
  unfolding toggle_assignment_open require_instructor get_assignment_or_404 get_course_or_404
      require_course_instructor
  toggle_effect assignment_id is_open a h = go (get_assignment assignment_id db) refl
    where
      go :
          (o : Option Assignment)
          → get_assignment assignment_id db ≡ o
          → ((course : Course) × (get_course a.course_id db ≡ some course)
              × (sees_all course user ≡ true))
            × ((k : ℕ)
                → get_assignment k (toggle_assignment_open assignment_id is_open user db).1 ≡ (
                    if assignment_id == k
                    then map_option
                        (λ (x : Assignment). record x { is_open = is_open })
                        (get_assignment k db)
                    else get_assignment k db))
      go none e = absurd (ground arith)
      go (some b) e = go_course (get_course b.course_id db) refl
        where
          go_course :
              (o : Option Course)
              → get_course b.course_id db ≡ o
              → ((course : Course) × (get_course a.course_id db ≡ some course)
                  × (sees_all course user ≡ true))
                × ((k : ℕ)
                    → get_assignment k (toggle_assignment_open assignment_id is_open user db).1 ≡ (
                        if assignment_id == k
                        then map_option
                            (λ (x : Assignment). record x { is_open = is_open })
                            (get_assignment k db)
                        else get_assignment k db))
          go_course none e' = absurd (ground arith)
          go_course (some c) e' = (
            (c, ground arith, ground arith),
            λ k. ground (
              arith,
              find?-update_where (λ (x : Assignment). x.id) (set_open is_open) assignment_id k
                  db.assignments (λ x. refl),
            ),
          )

  -- A user who is neither an admin nor the course's instructor gets only open assignments of the
  -- course.
  pub list_open_only :
      (course_id : ℕ) (course : Course) (rows : List Assignment)
      → get_course course_id db ≡ some course
      → sees_all course user ≡ false
      → (list_assignments course_id user db).0 ≡ ok rows
      → All (λ (a : Assignment). (a.course_id == course_id && a.is_open) ≡ true) rows
  unfolding list_assignments get_course_or_404
  list_open_only course_id course rows e hidden h =
      let visible = λ (a : Assignment). a.course_id == course_id && a.is_open in
      let earlier = λ (a b : Assignment). leb a.created_at b.created_at in
      let listed : order_by earlier (select visible db.assignments) ≡ rows = ground arith in
      subst (All (λ (a : Assignment). visible a ≡ true)) listed (
        All-order_by (λ (a : Assignment). visible a ≡ true) earlier (select visible db.assignments)
          (select-All visible db.assignments))

-- ===== src/Examples/Data.antt =====
-- A small database: a student with a project and a complete run, a course with one assignment.
use chipatelier.Prelude.{true, false, none, some, [], ◌∷◌}
use chipatelier.Prelude.Int.{pos, negsuc}
use chipatelier.Prelude.Text.{codes}
use chipatelier.Model.{
  User, student, instructor, Project, Run, complete, queued, Course, Assignment, Rule, Submission,
  pending, text, table, normal, Db, Backend,
}
use chipatelier.Jobs.{Fresh, SubmitRequest, World}
use chipatelier.Examples.Stores.{cells_redis}

abbrev pub alice : User
alice = record {
  id = 1;
  email = "alice@uni.edu";
  display_name = some "Alice";
  role = student;
  password_hash = none;
  is_active = true;
  last_login_at = none;
}

abbrev pub teacher : User
teacher = record alice { id = 9; email = "t@uni.edu"; display_name = none; role = instructor }

abbrev pub adder : Project
adder = record {
  id = 10;
  user_id = 1;
  name = "adder";
  pdk = "sky130hd";
  storage_bytes = 0;
  config_version = 1;
  verilog_version = 1;
  latest_source_path = some (codes "projects/10/verilog/v1");
  created_at = 0;
}

abbrev pub finished_run : Run
finished_run = record {
  id = 2;
  project_id = 10;
  status = complete;
  target_stage = none;
  stage_completed = none;
  is_submitted = false;
  notes = none;
  artifact_path = none;
  ppa = some (("worst_negative_slack", some (negsuc 4)) ∷ ("drc_violations", some (pos 0)) ∷ []);
  config = some (("CORE_UTILIZATION", text "40") ∷ []);
  queue_priority = normal;
  celery_task_id = none;
  created_at = 1;
  completed_at = some 2;
}

abbrev pub queued_run : Run
queued_run = record finished_run {
  id = 3;
  status = queued;
  ppa = none;
  config = some (("locked_params", table []) ∷ ("config_overrides", table []) ∷ []);
  completed_at = none;
}

abbrev pub drc_gate : Rule
drc_gate = record {
  metric = some "drc_violations";
  op = some "eq";
  value = some (pos 0);
  points = none;
  partial = none;
}

abbrev pub slack_rule : Rule
slack_rule = record {
  metric = some "worst_negative_slack";
  op = some "gte";
  value = some (negsuc 0);
  points = some (pos 40);
  partial = some (record { threshold = some (negsuc 9); points = some (pos 20) });
}

abbrev pub lab : Assignment
lab = record {
  id = 20;
  course_id = 5;
  title = "Lab 1";
  locked_params = ("CORE_UTILIZATION", "40") ∷ [];
  checkpoint_rules = record { hard = drc_gate ∷ []; scored = slack_rule ∷ [] };
  is_open = true;
  created_at = 3;
}

abbrev pub vlsi : Course
vlsi = record {
  id = 5;
  instructor_id = 9;
  name = "VLSI";
  term = none;
  enrollment_code = codes "VLSI-2025-AAAA";
  created_at = 0;
}

abbrev pub submission : Submission
submission = record {
  id = 4;
  assignment_id = 20;
  user_id = 1;
  run_id = 2;
  checkpoint_results = none;
  score = none;
  grading_status = pending;
  submitted_at = 5;
}

abbrev pub sample_db : Db
sample_db = record {
  users = alice ∷ teacher ∷ [];
  projects = adder ∷ [];
  runs = finished_run ∷ [];
  courses = vlsi ∷ [];
  enrollments = record { course_id = 5; user_id = 1; enrolled_at = 1 } ∷ [];
  assignments = lab ∷ [];
  submissions = submission ∷ [];
  vnc_sessions = [];
}

abbrev pub busy_db : Db
busy_db = record sample_db { runs = finished_run ∷ queued_run ∷ [] }

abbrev pub sample_backend : Backend
sample_backend = record { db = sample_db; sent = [] }

abbrev pub sample_world : World cells_redis
sample_world = record { db = sample_db; sent = []; redis = ([], []) }

abbrev pub busy_world : World cells_redis
busy_world = record sample_world { db = busy_db }

abbrev pub request : SubmitRequest
request = record {
  project_id = 10;
  target_stage = "finish";
  config_overrides = ("CORE_UTILIZATION", "40") ∷ [];
  source_path = none;
  notes = none;
}

abbrev pub chosen : Fresh
chosen = record { run_id = 7; task_id = 8; now = 9 }

-- ===== src/Timetable/Database.antt =====
-- tumba_sdn/timetable/timetable_engine.py: the tables of the database that the engine uses, and the
-- sample timetable. A time of day, which the source keeps as `HH:MM`, is in minutes.
use ai_driven_software_defin.Base.{
  ℕ, ◌+◌, Bool, true, Option, none, List, [], ◌∷◌, ◌++◌, String, is_empty, if◌then◌else◌,
}

pub record Slot : Type 0 where
  pub id : ℕ
  pub day : String
  pub start_time : ℕ
  pub end_time : ℕ
  pub slot_type : String
  pub department : String
  pub course_code : String
  pub room : String
  pub zone : String
  pub priority_override : Option ℕ
  pub notes : String
  pub active : Bool

-- Times are in milliseconds.
pub record Override : Type 0 where
  pub id : ℕ
  pub ts : ℕ
  pub override_type : String
  pub zone : String
  pub value : String
  pub expires_at : ℕ
  pub active : Bool

pub record SyncEntry : Type 0 where
  pub ts : ℕ
  pub source : String
  pub action : String
  pub details : String

pub record Db : Type 0 where
  pub slots : List Slot
  pub overrides : List Override
  pub sync_log : List SyncEntry
  -- The numbers that AUTOINCREMENT gives out next.
  pub next_slot : ℕ
  pub next_override : ℕ

-- The columns of an inserted sample slot; the others have their defaults.
pub record Sample : Type 0 where
  pub day : String
  pub start_time : ℕ
  pub end_time : ℕ
  pub slot_type : String
  pub department : String
  pub course_code : String
  pub room : String
  pub zone : String

abbrev sample : String → ℕ → ℕ → String → String → String → String → String → Sample
sample day start stop kind department course room zone = record {
  day = day;
  start_time = start;
  end_time = stop;
  slot_type = kind;
  department = department;
  course_code = course;
  room = room;
  zone = zone;
}

abbrev pub sample_slots : List Sample
sample_slots =
    sample "MON" 480 600 "lecture" "IT" "NET301" "Lab A" "it_lab"
    ∷ sample "MON" 600 720 "lab" "IT" "NET302" "Lab B" "it_lab"
    ∷ sample "MON" 780 900 "lecture" "Business" "BUS201" "Room 101" "student_wifi"
    ∷ sample "MON" 480 1020 "admin" "Admin" "" "Office" "staff_lan"
    ∷ sample "TUE" 480 600 "lecture" "IT" "SYS201" "Lab A" "it_lab"
    ∷ sample "TUE" 600 720 "exam" "IT" "NET301" "Exam Hall" "student_wifi"
    ∷ sample "TUE" 780 960 "lab" "IT" "NET303" "Lab A" "it_lab"
    ∷ sample "TUE" 480 1020 "admin" "Admin" "" "Office" "staff_lan"
    ∷ sample "WED" 480 600 "lecture" "IT" "DB301" "Room 201" "student_wifi"
    ∷ sample "WED" 600 720 "lab" "IT" "DB302" "Lab B" "it_lab"
    ∷ sample "WED" 840 960 "lecture" "Business" "ACC101" "Room 102" "student_wifi"
    ∷ sample "WED" 480 1020 "admin" "Admin" "" "Office" "staff_lan"
    ∷ sample "THU" 480 600 "exam" "IT" "SYS201" "Exam Hall" "student_wifi"
    ∷ sample "THU" 600 720 "lecture" "IT" "SEC201" "Lab A" "it_lab"
    ∷ sample "THU" 780 900 "lab" "IT" "SEC202" "Lab B" "it_lab"
    ∷ sample "THU" 480 1020 "admin" "Admin" "" "Office" "staff_lan"
    ∷ sample "FRI" 480 600 "lecture" "IT" "PRJ401" "Room 201" "student_wifi"
    ∷ sample "FRI" 600 960 "lab" "IT" "PRJ401" "Lab A" "it_lab"
    ∷ sample "FRI" 480 1020 "admin" "Admin" "" "Office" "staff_lan"
    ∷ []

abbrev pub slot_of : ℕ → Sample → Slot
slot_of n row = record {
  id = n;
  day = row.day;
  start_time = row.start_time;
  end_time = row.end_time;
  slot_type = row.slot_type;
  department = row.department;
  course_code = row.course_code;
  room = row.room;
  zone = row.zone;
  priority_override = none;
  notes = "";
  active = true;
}

unfoldable pub insert_slots : List Sample → Db → Db
insert_slots [] db = db
insert_slots (row ∷ rows) db = insert_slots rows (record db {
  slots = db.slots ++ (slot_of db.next_slot row ∷ []);
  next_slot = db.next_slot + 1;
})

-- A new database.
abbrev pub new_db : Db
new_db = record { slots = []; overrides = []; sync_log = []; next_slot = 1; next_override = 1 }

-- `init_db` on a database whose tables exist.
unfoldable pub init_db : Db → Db
init_db db = if is_empty db.slots then insert_slots sample_slots db else db

-- ===== src/Timetable.antt =====
-- tumba_sdn/timetable/timetable_engine.py: the timetable, its overrides and the state computed from
-- them. SQLite is not in the repository: a table is the list of its rows in the order of their
-- numbers, which is the order a query returns them in here.
pub mod Database
pub mod Engine
pub mod Exams
pub mod Priorities
mod Tests

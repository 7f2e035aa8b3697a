-- ===== src/Controller.antt =====
-- tumba_sdn/controller/main_controller.py: the rules of the main controller, the addresses it learns
-- and its count of rules. Port statistics, zone metrics and the files it reads are left out.
pub mod Switching
pub mod Growth
pub mod Policies
pub mod Learning
mod Tests

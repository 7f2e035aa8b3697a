-- ===== src/Activity/Pcs.antt =====
-- tumba_sdn/simulation/pc_activity_manager.py: the PCs and the demonstration scenarios.
use ai_driven_software_defin.Base.{List, [], ◌∷◌, String, Dict}

pub record Pc : Type 0 where
  pub zone : String
  pub ip : String
  pub label : String
  pub role : String

-- A row of the table: the name, the zone, the address, the label and the role.
abbrev pc : String → String → String → String → String → String × Pc
pc host zone ip label role = (host, record { zone = zone; ip = ip; label = label; role = role })

abbrev pub user_pcs : Dict String Pc
user_pcs =
    pc "h_staff1" "staff_lan" "10.10.0.1" "Staff PC 1" "staff"
    ∷ pc "h_staff2" "staff_lan" "10.10.0.2" "Staff PC 2" "staff"
    ∷ pc "h_staff3" "staff_lan" "10.10.0.3" "Staff PC 3" "staff"
    ∷ pc "h_staff4" "staff_lan" "10.10.0.4" "Staff PC 4" "staff"
    ∷ pc "h_staff5" "staff_lan" "10.10.0.5" "Staff PC 5" "staff"
    ∷ pc "h_staff6" "staff_lan" "10.10.0.6" "Staff PC 6" "staff"
    ∷ pc "h_lab1" "it_lab" "10.30.0.1" "Lab PC 1" "student"
    ∷ pc "h_lab2" "it_lab" "10.30.0.2" "Lab PC 2" "student"
    ∷ pc "h_lab3" "it_lab" "10.30.0.3" "Lab PC 3" "student"
    ∷ pc "h_lab4" "it_lab" "10.30.0.4" "Lab PC 4" "student"
    ∷ pc "h_wifi1" "student_wifi" "10.40.0.1" "WiFi Device 1" "student"
    ∷ pc "h_wifi2" "student_wifi" "10.40.0.2" "WiFi Device 2" "student"
    ∷ pc "h_wifi3" "student_wifi" "10.40.0.3" "WiFi Device 3" "student"
    ∷ pc "h_wifi4" "student_wifi" "10.40.0.4" "WiFi Device 4" "student"
    ∷ pc "h_wifi5" "student_wifi" "10.40.0.5" "WiFi Device 5" "student"
    ∷ pc "h_wifi6" "student_wifi" "10.40.0.6" "WiFi Device 6" "student"
    ∷ pc "h_wifi7" "student_wifi" "10.40.0.7" "WiFi Device 7" "student"
    ∷ pc "h_wifi8" "student_wifi" "10.40.0.8" "WiFi Device 8" "student"
    ∷ pc "h_wifi9" "student_wifi" "10.40.0.9" "WiFi Device 9" "student"
    ∷ pc "h_wifi10" "student_wifi" "10.40.0.10" "WiFi Device 10" "student"
    ∷ []

abbrev pub demo_scenarios : Dict String (List (String × String))
demo_scenarios =
    (
      "canonical",
      ("h_wifi1", "exam")
          ∷ ("h_wifi2", "social_media")
          ∷ ("h_wifi3", "video_conf")
          ∷ ("h_wifi4", "file_download")
          ∷ ("h_wifi5", "elearning")
          ∷ ("h_wifi6", "video_streaming")
          ∷ [],
    )
    ∷ (
      "staff_heavy",
      ("h_staff1", "exam")
          ∷ ("h_staff2", "video_conf")
          ∷ ("h_staff3", "elearning")
          ∷ ("h_staff4", "file_download")
          ∷ ("h_staff5", "video_streaming")
          ∷ ("h_staff6", "social_media")
          ∷ [],
    )
    ∷ (
      "security_test",
      ("h_staff1", "exam")
          ∷ ("h_wifi7", "ddos_attack")
          ∷ ("h_wifi8", "ddos_attack")
          ∷ ("h_wifi9", "ddos_attack")
          ∷ ("h_staff2", "video_conf")
          ∷ ("h_lab1", "elearning")
          ∷ [],
    )
    ∷ (
      "congestion",
      ("h_wifi1", "file_download")
          ∷ ("h_wifi2", "file_download")
          ∷ ("h_wifi3", "video_streaming")
          ∷ ("h_wifi4", "video_streaming")
          ∷ ("h_wifi5", "video_conf")
          ∷ ("h_wifi6", "exam")
          ∷ [],
    )
    ∷ []

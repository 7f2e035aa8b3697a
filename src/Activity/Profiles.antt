-- ===== src/Activity/Profiles.antt =====
-- tumba_sdn/simulation/pc_activity_manager.py: the activity profiles. Bandwidths are in kbit/s.
use ai_driven_software_defin.Base.{ℕ, Option, none, some, [], ◌∷◌, String, Dict}

pub data Proto : Type 0 where
  tcp udp : Proto

-- What a profile other than idle has besides.
pub record Target : Type 0 where
  pub dst_ip : String
  pub dst_port : ℕ
  pub proto : Proto
  pub pattern : String
  pub burst_dur : ℕ
  pub burst_gap : ℕ

pub record Profile : Type 0 where
  pub label : String
  pub priority : ℕ
  pub dscp : ℕ
  pub bandwidth_kbps : ℕ
  pub target : Option Target
  pub color : String
  pub icon : String
  pub description : String

abbrev idle_profile : Profile
idle_profile = record {
  label = "Idle";
  priority = 5;
  dscp = 0;
  bandwidth_kbps = 0;
  target = none;
  color = "#64748b";
  icon = "●";
  description = "No active traffic — baseline state";
}

abbrev exam_profile : Profile
exam_profile = record {
  label = "Online Examination";
  priority = 1;
  dscp = 46;
  bandwidth_kbps = 5000;
  target = some (record {
    dst_ip = "10.20.0.1";
    dst_port = 5201;
    proto = tcp;
    pattern = "burst";
    burst_dur = 4;
    burst_gap = 1;
  });
  color = "#ef4444";
  icon = "E";
  description = "High priority, latency-sensitive exam traffic";
}

abbrev video_conf_profile : Profile
video_conf_profile = record {
  label = "Video Conferencing";
  priority = 1;
  dscp = 40;
  bandwidth_kbps = 4000;
  target = some (record {
    dst_ip = "10.20.0.1";
    dst_port = 5201;
    proto = udp;
    pattern = "stream";
    burst_dur = 8;
    burst_gap = 1;
  });
  color = "#3b82f6";
  icon = "V";
  description = "Real-time, delay-sensitive video call";
}

abbrev elearning_profile : Profile
elearning_profile = record {
  label = "E-learning Platform";
  priority = 2;
  dscp = 26;
  bandwidth_kbps = 3000;
  target = some (record {
    dst_ip = "10.20.0.4";
    dst_port = 5204;
    proto = tcp;
    pattern = "moderate";
    burst_dur = 5;
    burst_gap = 2;
  });
  color = "#10b981";
  icon = "L";
  description = "Medium-high priority Moodle / LMS access";
}

abbrev video_streaming_profile : Profile
video_streaming_profile = record {
  label = "Academic Streaming";
  priority = 3;
  dscp = 18;
  bandwidth_kbps = 5000;
  target = some (record {
    dst_ip = "10.20.0.4";
    dst_port = 5204;
    proto = tcp;
    pattern = "stream";
    burst_dur = 10;
    burst_gap = 1;
  });
  color = "#a855f7";
  icon = "S";
  description = "Moderate priority academic video stream";
}

abbrev file_download_profile : Profile
file_download_profile = record {
  label = "File Downloading";
  priority = 4;
  dscp = 10;
  bandwidth_kbps = 10000;
  target = some (record {
    dst_ip = "10.20.0.1";
    dst_port = 5201;
    proto = tcp;
    pattern = "bulk";
    burst_dur = 12;
    burst_gap = 1;
  });
  color = "#f59e0b";
  icon = "D";
  description = "Bandwidth-intensive bulk file transfer";
}

abbrev social_media_profile : Profile
social_media_profile = record {
  label = "Social Media";
  priority = 5;
  dscp = 0;
  bandwidth_kbps = 1000;
  target = some (record {
    dst_ip = "10.20.0.4";
    dst_port = 5204;
    proto = tcp;
    pattern = "bursty";
    burst_dur = 2;
    burst_gap = 4;
  });
  color = "#06b6d4";
  icon = "M";
  description = "Low priority best-effort browsing";
}

abbrev ddos_attack_profile : Profile
ddos_attack_profile = record {
  label = "DDoS Attack (Security)";
  priority = 0;
  dscp = 0;
  bandwidth_kbps = 50000;
  target = some (record {
    dst_ip = "10.20.0.1";
    dst_port = 80;
    proto = tcp;
    pattern = "flood";
    burst_dur = 30;
    burst_gap = 0;
  });
  color = "#dc2626";
  icon = "!";
  description = "Security scenario: simulated DDoS from this PC";
}

abbrev pub activity_profiles : Dict String Profile
activity_profiles =
    ("idle", idle_profile)
    ∷ ("exam", exam_profile)
    ∷ ("video_conf", video_conf_profile)
    ∷ ("elearning", elearning_profile)
    ∷ ("video_streaming", video_streaming_profile)
    ∷ ("file_download", file_download_profile)
    ∷ ("social_media", social_media_profile)
    ∷ ("ddos_attack", ddos_attack_profile)
    ∷ []

abbrev pub priority_labels : Dict ℕ String
priority_labels =
    (1, "CRITICAL")
    ∷ (2, "HIGH")
    ∷ (3, "MEDIUM")
    ∷ (4, "LOW")
    ∷ (5, "BEST-EFFORT")
    ∷ (0, "ATTACK")
    ∷ []

-- ===== src/Adaptive/Routing/Settings.antt =====
-- examples/campus_controller.py: `_apply_threshold_settings`.
use ai_driven_software_defin.Base.{
  Outcome, returned, raised, then_do, ℤ, int_leb, int_beq, tenths, ℕ, Bool, not, ◌||◌, string_eq,
  if◌then◌else◌,
}
use ai_driven_software_defin.Adaptive.State.{
  Thresholds, CampusController, append_event, threshold_update,
}

-- A threshold of a file: absent, a value that `float` refuses, or its number, in thousandths. A number
-- that is not finite is left out.
pub data Setting : Type 0 where
  unset unreadable : Setting
  value : ℤ → Setting

pub record Settings : Type 0 where
  pub congest_high_mbps : Setting
  pub congest_low_mbps : Setting
  pub port_congest_high_pct : Setting
  pub port_congest_low_pct : Setting

unfoldable pub read_setting :
    Setting → (ℤ → Thresholds → Thresholds) → Thresholds → Outcome Thresholds
read_setting unset set t = returned t
read_setting unreadable set t = raised t
read_setting (value v) set t = returned (set v t)

abbrev pub set_high : ℤ → Thresholds → Thresholds
set_high v t = record t { congest_high_mbps = v }

abbrev pub set_low : ℤ → Thresholds → Thresholds
set_low v t = record t { congest_low_mbps = v }

abbrev pub set_port_high : ℤ → Thresholds → Thresholds
set_port_high v t = record t { port_congest_high_pct = v }

abbrev pub set_port_low : ℤ → Thresholds → Thresholds
set_port_low v t = record t { port_congest_low_pct = v }

unfoldable pub read_ports : Settings → Thresholds → Outcome Thresholds
unfolding read_setting then_do
read_ports p t =
    then_do (read_setting p.port_congest_high_pct set_port_high t)
      (λ u. read_setting p.port_congest_low_pct set_port_low u)

unfoldable pub read_low : Settings → Thresholds → Outcome Thresholds
unfolding read_setting then_do read_ports
read_low p t = then_do (read_setting p.congest_low_mbps set_low t) (λ u. read_ports p u)

-- The thresholds as they are read, one after the other.
unfoldable pub read_settings : Settings → Thresholds → Outcome Thresholds
unfolding read_setting then_do read_low
read_settings p t = then_do (read_setting p.congest_high_mbps set_high t) (λ u. read_low p u)

-- `low` corrected to so many tenths of `high`, if it is not below `high`.
abbrev pub corrected : ℕ → ℤ → ℤ → ℤ
corrected k high low = if int_leb high low then tenths k high else low

unfoldable pub correct : Thresholds → Thresholds
unfolding int_leb tenths
correct t = record t {
  congest_low_mbps = corrected 7 t.congest_high_mbps t.congest_low_mbps;
  port_congest_low_pct = corrected 8 t.port_congest_high_pct t.port_congest_low_pct;
}

-- Whether one of the four numbers differs.
unfoldable pub differs : Thresholds → Thresholds → Bool
unfolding int_beq
differs t u =
    not (int_beq t.congest_high_mbps u.congest_high_mbps)
    || not (int_beq t.congest_low_mbps u.congest_low_mbps)
    || not (int_beq t.port_congest_high_pct u.port_congest_high_pct)
    || not (int_beq t.port_congest_low_pct u.port_congest_low_pct)

-- `updated` is set where reading or correcting changes a number.
unfoldable pub finish_settings : CampusController → Outcome Thresholds → Outcome CampusController
unfolding correct differs append_event
finish_settings s (raised t) = raised (record s { thresholds = t })
finish_settings s (returned t) =
    let u = record s { thresholds = correct t } in
    if differs s.thresholds t || differs t (correct t)
    then returned (append_event threshold_update u)
    else returned u

unfoldable pub apply_threshold_settings : Settings → CampusController → Outcome CampusController
unfolding read_settings finish_settings
apply_threshold_settings p s = finish_settings s (read_settings p s.thresholds)

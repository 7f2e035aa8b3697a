-- ===== src/Adaptive/Routing/Hysteresis.antt =====
-- examples/campus_controller.py: the two thresholds of a port. When a port becomes congested and
-- when it stops, and that the thresholds stay apart.
use ai_driven_software_defin.Base.{
  pos, ◌&&◌, ◌⊎◌, ℤ, int_leb, IsBelow, member-add, member-discard, Bool, true, false, not, member,
  ◌≡◌, arith, if◌then◌else◌, pair_beq, pair_beq_iff, pair_eq,
}
use ai_driven_software_defin.Adaptive.State.{
  Port, Fraction, Thresholds, CampusController, at_least, at_most, append_event,
}
use ai_driven_software_defin.Adaptive.Routing.Policy.{update_port_congestion}
use ai_driven_software_defin.Adaptive.Routing.Settings.{Setting, unset, unreadable, value, Settings}

-- The mark of a port with two thresholds: it is set at the high one and goes at the low one.
abbrev pub schmitt : Fraction → Thresholds → Bool → Bool
schmitt util t true = not (at_most util t.port_congest_low_pct)
schmitt util t false = at_least util t.port_congest_high_pct

-- The reading of a port sets its mark if the utilisation is at the high threshold or above, clears
-- it if the utilisation is at the low threshold or below, leaves it as it was in between, and
-- leaves the marks of all other ports.
pub update_port_congestion-member :
    (key k : Port) (util_pct : Fraction) (s : CampusController)
    → member k (update_port_congestion key util_pct s).congested_ports ≡ (
        if pair_beq key k
        then schmitt util_pct s.thresholds (member key s.congested_ports)
        else member k s.congested_ports)
unfolding update_port_congestion append_event
update_port_congestion-member key k util_pct s = ground (
  arith,
  pair_beq_iff key k,
  member-add k key s.congested_ports,
  member-discard k key s.congested_ports,
)

-- A low threshold is below its high one, or the high one is not above 0.
abbrev pub IsLow : ℤ → ℤ → Type 0
IsLow low high = IsBelow low high ⊎ (int_leb high (pos 0) ≡ true)

abbrev pub IsApart : CampusController → Type 0
IsApart s =
    IsLow s.thresholds.congest_low_mbps s.thresholds.congest_high_mbps
    × IsLow s.thresholds.port_congest_low_pct s.thresholds.port_congest_high_pct

abbrev pub is_readable : Setting → Bool
is_readable unset = true
is_readable unreadable = false
is_readable (value v) = true

-- Whether `float` takes every threshold that the file has.
abbrev pub all_readable : Settings → Bool
all_readable p =
    is_readable p.congest_high_mbps
    && (is_readable p.congest_low_mbps
        && (is_readable p.port_congest_high_pct && is_readable p.port_congest_low_pct))

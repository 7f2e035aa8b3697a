-- ===== src/Adaptive/Security/Normalized.antt =====
-- examples/campus_controller.py: what `_normalize_security_policy` makes of any policy file.
use ai_driven_software_defin.Base.{
  ℕ, ◌≤◌, Bool, true, false, not, ◌&&◌, Option, none, some, List, [], ◌∷◌, String, all, All, member,
  map, ◌≡◌, refl, arith, Bool-cases, inl, inr, if-both, nat_eq, string_eq,
}
use ai_driven_software_defin.Adaptive.Zones.{
  SecurityPolicy, ZonePair, Payload, Field, missing, invalid, number, below_zero,
  default_security_policy, valid_zones, collect, collect_pairs, seen_pair, port_of, is_port,
  merge_ports, clamp, Listing, absent, not_iterable, listed, elements, normalized, with_lists,
  normalize_security_policy,
}
use ai_driven_software_defin.Adaptive.Security.Merging.{
  collect-All, or_list-All, clamp-le, clamp-ge, IsPort, is_port-IsPort, merge_into-IsPort,
  merge_into-In,
}

-- A list of ports that was merged: they are valid, and the default ones are among them.
abbrev pub IsMerged : List ℕ → List ℕ → Type 0
IsMerged defaults ports =
    All IsPort ports × ((port : ℕ) → member port defaults ≡ true → member port ports ≡ true)

abbrev pub is_iterable : {A : Type 0} → Listing A → Bool
is_iterable absent = true
is_iterable not_iterable = false
is_iterable (listed xs) = true

-- A value there is exactly if the flag says so, and it satisfies `P`.
abbrev pub IsRead : {A : Type 0} → (A → Type 0) → Bool → Option A → Type 0
IsRead P true none = ⊥
IsRead P true (some a) = P a
IsRead P false none = Unit
IsRead P false (some a) = ⊥

elements-IsRead :
    {A : Type 0} (l : Listing A) (defaults : List A)
    → IsRead (λ xs. Unit) (is_iterable l) (elements l defaults)
unfolding elements
elements-IsRead absent defaults = tt
elements-IsRead not_iterable defaults = tt
elements-IsRead (listed xs) defaults = tt

merge_ports-IsRead :
    (l : Listing Field) (defaults : List ℕ)
    → All IsPort defaults
    → IsRead (IsMerged defaults) (is_iterable l) (merge_ports l defaults)
unfolding merge_ports
merge_ports-IsRead absent defaults h =
    (merge_into-IsPort defaults defaults h, merge_into-In defaults defaults)
merge_ports-IsRead not_iterable defaults h = tt
merge_ports-IsRead (listed raws) defaults h =
    (merge_into-IsPort (map port_of raws) defaults h, merge_into-In (map port_of raws) defaults)

both_first : (a b c : Bool) → (a && b && c) ≡ true → (a ≡ true) × (b ≡ true)
both_first a b c h = ground (arith, h)

abbrev pub IsZone : String → Type 0
IsZone zone = member zone valid_zones ≡ true

abbrev pub IsPair : ZonePair → Type 0
IsPair pair = IsZone pair.src_zone × IsZone pair.dst_zone

collect_pairs-IsPair :
    (items : List ZonePair) (seen : List (String × String)) → All IsPair (collect_pairs items seen)
unfolding collect_pairs
collect_pairs-IsPair [] seen = tt
collect_pairs-IsPair (item ∷ items) seen =
    if-both (All IsPair)
      (member item.src_zone valid_zones
        && member item.dst_zone valid_zones
        && not (seen_pair item seen))
      (item ∷ collect_pairs items ((item.src_zone, item.dst_zone) ∷ seen))
      (collect_pairs items seen)
      (λ t. (
        both_first (member item.src_zone valid_zones) (member item.dst_zone valid_zones)
            (not (seen_pair item seen)) t,
        collect_pairs-IsPair items ((item.src_zone, item.dst_zone) ∷ seen),
      ))
      (λ t. collect_pairs-IsPair items seen)

-- What a policy must satisfy to be installed: the drops of the policy are below those of a flood
-- (400) and above the flows of the reroute policy (200).
pub record IsSound (policy : SecurityPolicy) : Type 0 where
  pub priority : (300 ≤ policy.drop_priority) × (policy.drop_priority ≤ 390)
  pub idle : (10 ≤ policy.drop_idle_timeout_s) × (policy.drop_idle_timeout_s ≤ 900)
  pub hard : policy.drop_hard_timeout_s ≤ 1800
  pub restricted : All IsZone policy.restricted_source_zones
  pub pairs : All IsPair policy.block_zone_pairs
  -- What the default policy allows stays allowed.
  pub tcp :
      IsMerged default_security_policy.allowed_server_tcp_ports policy.allowed_server_tcp_ports
  pub udp :
      IsMerged default_security_policy.allowed_server_udp_ports policy.allowed_server_udp_ports

all-IsPort : (ports : List ℕ) → all is_port ports ≡ true → All IsPort ports
all-IsPort [] h = tt
all-IsPort (port ∷ ports) h = elim (Bool-cases (is_port port)) [
  | inl e ↦ (is_port-IsPort port e, all-IsPort ports (ground (arith, h, e)))
  | inr e ↦ absurd (ground (arith, h, e))
]

default_tcp : All IsPort default_security_policy.allowed_server_tcp_ports
default_tcp = all-IsPort default_security_policy.allowed_server_tcp_ports refl

default_udp : All IsPort default_security_policy.allowed_server_udp_ports
default_udp = all-IsPort default_security_policy.allowed_server_udp_ports refl

idle-bounds : (f : Field) → (10 ≤ clamp 10 900 120 120 f) × (clamp 10 900 120 120 f ≤ 900)
idle-bounds f =
    (clamp-ge 10 900 120 120 f (λ e. omega arith), clamp-le 10 900 120 120 f (omega arith))

hard-le : (idle : ℕ) (f : Field) → idle ≤ 900 → clamp idle 1800 300 300 f ≤ 1800
unfolding clamp
hard-le idle missing h = omega arith
hard-le idle invalid h = omega arith
hard-le idle (number n) h = omega arith
hard-le idle (below_zero n) h = omega arith

-- Whether Python can iterate over each list of the payload that is looped over.
abbrev pub is_readable : Option Payload → Bool
is_readable none = true
is_readable (some payload) =
    is_iterable payload.restricted_source_zones
    && is_iterable payload.block_zone_pairs
    && is_iterable payload.allowed_server_tcp_ports
    && is_iterable payload.allowed_server_udp_ports

default-IsSound : IsSound default_security_policy
unfolding member
default-IsSound = record {
  priority = (omega arith, omega arith);
  idle = (omega arith, omega arith);
  hard = omega arith;
  restricted = (refl, (refl, tt));
  pairs = ((refl, refl), ((refl, refl), ((refl, refl), tt)));
  tcp = (default_tcp, λ port m. m);
  udp = (default_udp, λ port m. m);
}

module _ (is_ip : String → Bool) where
  normalized-IsSound :
      (payload : Payload) (zones : List String) (pairs : List ZonePair) (tcp udp : List ℕ)
      → IsMerged default_security_policy.allowed_server_tcp_ports tcp
      → IsMerged default_security_policy.allowed_server_udp_ports udp
      → IsSound (normalized is_ip payload zones pairs tcp udp)
  unfolding normalized
  normalized-IsSound payload zones pairs tcp udp t u = record {
    priority = (
      clamp-ge 300 390 360 360 payload.drop_priority (λ e. omega arith),
      clamp-le 300 390 360 360 payload.drop_priority (omega arith),
    );
    idle = idle-bounds payload.drop_idle_timeout_s;
    hard =
        hard-le (clamp 10 900 120 120 payload.drop_idle_timeout_s) payload.drop_hard_timeout_s
          (idle-bounds payload.drop_idle_timeout_s).1;
    restricted =
        or_list-All IsZone (collect (λ zone. member zone valid_zones) zones [])
          default_security_policy.restricted_source_zones
          (collect-All IsZone (λ zone. member zone valid_zones) zones [] (λ a t m. t) tt)
          (refl, (refl, tt));
    pairs = collect_pairs-IsPair pairs [];
    tcp = t;
    udp = u;
  }

  with_lists-IsRead :
      (payload : Payload) (a b c d : Bool) (zones : Option (List String))
      (pairs : Option (List ZonePair)) (tcp udp : Option (List ℕ))
      → IsRead (λ xs. Unit) a zones
      → IsRead (λ xs. Unit) b pairs
      → IsRead (IsMerged default_security_policy.allowed_server_tcp_ports) c tcp
      → IsRead (IsMerged default_security_policy.allowed_server_udp_ports) d udp
      → IsRead IsSound (a && b && c && d) (with_lists is_ip payload zones pairs tcp udp)
  unfolding with_lists
  with_lists-IsRead payload true b c d none p t u h i j k = absurd h
  with_lists-IsRead payload false b c d none p t u h i j k = tt
  with_lists-IsRead payload false b c d (some z) p t u h i j k = absurd h
  with_lists-IsRead payload true true c d (some z) none t u h i j k = absurd i
  with_lists-IsRead payload true false c d (some z) none t u h i j k = tt
  with_lists-IsRead payload true false c d (some z) (some p) t u h i j k = absurd i
  with_lists-IsRead payload true true true d (some z) (some p) none u h i j k = absurd j
  with_lists-IsRead payload true true false d (some z) (some p) none u h i j k = tt
  with_lists-IsRead payload true true false d (some z) (some p) (some t) u h i j k = absurd j
  with_lists-IsRead payload true true true true (some z) (some p) (some t) none h i j k = absurd k
  with_lists-IsRead payload true true true false (some z) (some p) (some t) none h i j k = tt
  with_lists-IsRead payload true true true false (some z) (some p) (some t) (some u) h i j k =
      absurd k
  with_lists-IsRead payload true true true true (some z) (some p) (some t) (some u) h i j k =
      normalized-IsSound payload z p t u j k

  -- The policy file is read without an error exactly if it is no dictionary or Python can iterate over
  -- its restricted zones, its pairs of zones and its two lists of ports; otherwise TypeError is
  -- raised. What is read drops at a priority from 300 to 390, has an idle timeout from 10 to 900 and a
  -- hard timeout of 1800 seconds at most, names known zones only, allows ports from 1 to 65535 only,
  -- and allows all ports that the default policy allows.
  pub normalize_security_policy-IsSound :
      (payload : Option Payload)
      → IsRead IsSound (is_readable payload) (normalize_security_policy is_ip payload)
  unfolding normalize_security_policy
  normalize_security_policy-IsSound none = default-IsSound
  normalize_security_policy-IsSound (some payload) =
      let defaults = default_security_policy in
      with_lists-IsRead payload _ _ _ _ _ _ _ _
        (elements-IsRead payload.restricted_source_zones defaults.restricted_source_zones)
        (elements-IsRead payload.block_zone_pairs [])
        (merge_ports-IsRead payload.allowed_server_tcp_ports defaults.allowed_server_tcp_ports
          default_tcp)
        (merge_ports-IsRead payload.allowed_server_udp_ports defaults.allowed_server_udp_ports
          default_udp)

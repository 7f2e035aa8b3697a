-- ===== src/Security/Cleanup.antt =====
-- tumba_sdn/controller/security_module.py, `_cleanup_loop`: the expiry of blocks.
use ai_driven_software_defin.Base.{
  leb, ◌+◌, ℕ, ◌+◌, ◌≤◌, ◌≡◌, refl, sym, ap, ◌∙◌, Bool, true, none, List, [], ◌∷◌, ◌++◌, String,
  Dict, lookup, erase, is_empty, pop_all-Unique, keys_where, pop_all, lookup-pop_all,
  member-keys_where, holds, lookup-expire, unless, length, length-last_n, if◌then◌else◌, string_eq,
  arith, leb,
}
use ai_driven_software_defin.Security.Module.{
  SecurityModule, SecurityEvent, log_security_event, unblock_all, refresh_ddos, cleanup,
  ddos_expired, portscan_expired,
}
use ai_driven_software_defin.Security.Blocks.{IsValid}

-- The state after the loop over the expired addresses: their blocks and the log have changed.
abbrev unblocked : SecurityModule → Dict String ℕ → List SecurityEvent → SecurityModule
unblocked s ips events = record s { ddos_blocked_ips = ips; security_events = events }

unblock_all_lem :
    (now : ℕ) (ips : List String) (s : SecurityModule)
    → length s.security_events ≤ 500
    → (events : List SecurityEvent) × (unblock_all now ips s
        ≡ unblocked s (pop_all ips s.ddos_blocked_ips) events)
      × (length events ≤ 500)
unfolding unblock_all pop_all log_security_event
unblock_all_lem now [] s h = (s.security_events, refl, h)
unblock_all_lem now (ip ∷ ips) s h =
    unblock_all_lem now ips _ (omega (arith, length-last_n 500 (s.security_events ++ (_ ∷ []))))

-- The state after the flood blocks are expired.
expired_floods : ℕ → SecurityModule → SecurityModule
expired_floods now s =
    let expired = keys_where (ddos_expired now) s.ddos_blocked_ips in
    refresh_ddos expired (unblock_all now expired s)

empty_pop : (m : Dict String ℕ) → is_empty (pop_all [] m) ≡ is_empty m
unfolding pop_all
empty_pop m = refl

pop_all_empty :
    (ips : List String) (m : Dict String ℕ) → is_empty m ≡ true → is_empty (pop_all ips m) ≡ true
unfolding pop_all erase
pop_all_empty [] m h = h
pop_all_empty (ip ∷ ips) [] h = pop_all_empty ips [] h
pop_all_empty (ip ∷ ips) (e ∷ m) h = absurd (cc)

refresh-IsValid :
    (ips : List String) (s : SecurityModule) (events : List SecurityEvent)
    → IsValid s
    → length events ≤ 500
    → IsValid (refresh_ddos ips (unblocked s (pop_all ips s.ddos_blocked_ips) events))
unfolding refresh_ddos
refresh-IsValid [] s events v h = record {
  ddos_unique = pop_all-Unique [] s.ddos_blocked_ips v.ddos_unique;
  scans_unique = v.scans_unique;
  scans_valid = v.scans_valid;
  alerted_blocked = v.alerted_blocked;
  events_bounded = h;
  typed = v.typed;
  active = λ e. v.active (sym (empty_pop s.ddos_blocked_ips) ∙ e);
}
refresh-IsValid (ip ∷ ips) s events v h = record {
  ddos_unique = pop_all-Unique (ip ∷ ips) s.ddos_blocked_ips v.ddos_unique;
  scans_unique = v.scans_unique;
  scans_valid = v.scans_valid;
  alerted_blocked = v.alerted_blocked;
  events_bounded = h;
  typed =
      let was : is_empty s.ddos_blocked_ips ≡ true
          → is_empty (pop_all (ip ∷ ips) s.ddos_blocked_ips) ≡ true =
        λ e. pop_all_empty (ip ∷ ips) s.ddos_blocked_ips e in
      ground (arith, v.typed, v.active);
  active = λ e. rw e refl;
}

expired_floods-IsValid : (now : ℕ) (s : SecurityModule) → IsValid s → IsValid (expired_floods now s)
unfolding expired_floods
expired_floods-IsValid now s v =
    let expired = keys_where (ddos_expired now) s.ddos_blocked_ips in
    let (events, e, h) = unblock_all_lem now expired s v.events_bounded in
    rw e (refresh-IsValid expired s events v h)

-- A source whose block for a scan expires loses its entry too.
expire_scans-IsValid :
    (now : ℕ) (s : SecurityModule)
    → IsValid s
    → let scans = keys_where (portscan_expired now) s.portscan_blocked in
      IsValid (record s {
        portscan_blocked = pop_all scans s.portscan_blocked;
        portscan_state = pop_all scans s.portscan_state;
      })
expire_scans-IsValid now s v =
    let scans = keys_where (portscan_expired now) s.portscan_blocked in
    record {
      ddos_unique = v.ddos_unique;
      scans_unique = pop_all-Unique scans s.portscan_blocked v.scans_unique;
      scans_valid =
          λ ip c e. v.scans_valid ip c (ground (arith, lookup-pop_all ip scans s.portscan_state));
      alerted_blocked = λ ip. ground (
        arith,
        v.alerted_blocked ip,
        lookup-pop_all ip scans s.portscan_state,
        lookup-pop_all ip scans s.portscan_blocked,
      );
      events_bounded = v.events_bounded;
      typed = v.typed;
      active = v.active;
    }

pub cleanup-IsValid : (now : ℕ) (s : SecurityModule) → IsValid s → IsValid (cleanup now s)
unfolding cleanup expired_floods
cleanup-IsValid now s v =
    expire_scans-IsValid now (expired_floods now s) (expired_floods-IsValid now s v)

refresh_parts :
    (ips : List String) (s : SecurityModule)
    → ((refresh_ddos ips s).ddos_blocked_ips ≡ s.ddos_blocked_ips)
      × ((refresh_ddos ips s).portscan_blocked ≡ s.portscan_blocked)
      × ((refresh_ddos ips s).portscan_state ≡ s.portscan_state)
      × ((refresh_ddos ips s).sent ≡ s.sent)
unfolding refresh_ddos
refresh_parts [] s = (refl, refl, refl, refl)
refresh_parts (ip ∷ ips) s = (refl, refl, refl, refl)

expired_floods_parts :
    (now : ℕ) (s : SecurityModule)
    → IsValid s
    → let expired = keys_where (ddos_expired now) s.ddos_blocked_ips in
      let t = expired_floods now s in
      (t.ddos_blocked_ips ≡ pop_all expired s.ddos_blocked_ips)
      × (t.portscan_blocked ≡ s.portscan_blocked)
      × (t.portscan_state ≡ s.portscan_state)
      × (t.sent ≡ s.sent)
unfolding expired_floods refresh_ddos
expired_floods_parts now s v =
    let expired = keys_where (ddos_expired now) s.ddos_blocked_ips in
    let (events, e, h) = unblock_all_lem now expired s v.events_bounded in
    rw e (refresh_parts expired (unblocked s (pop_all expired s.ddos_blocked_ips) events))

-- A block made at `ts` is at least `age` old.
abbrev pub is_aged : ℕ → ℕ → ℕ → Bool
is_aged age now ts = leb (ts + age) now

-- On a valid state one round of the cleanup forgets exactly the flood and scan blocks that are at
-- least 305 seconds old and keeps every other with its time; a source whose scan block goes loses
-- its connections too, every other source keeps them; and no rule is sent.
pub cleanup_lem :
    (now : ℕ) (s : SecurityModule)
    → IsValid s
    → ((ip : String)
        → (lookup ip (cleanup now s).ddos_blocked_ips
            ≡ unless (is_aged 305_000 now) (lookup ip s.ddos_blocked_ips))
          × (lookup ip (cleanup now s).portscan_blocked
              ≡ unless (is_aged 305_000 now) (lookup ip s.portscan_blocked))
          × (lookup ip (cleanup now s).portscan_state ≡ (
              if holds (is_aged 305_000 now) (lookup ip s.portscan_blocked)
              then none
              else lookup ip s.portscan_state)))
      × ((cleanup now s).sent ≡ s.sent)
unfolding cleanup expired_floods
cleanup_lem now s v =
    let t = expired_floods now s in
    let (a, b, c, d) = expired_floods_parts now s v in
    (
      λ ip. (
        ap (lookup ip) a ∙ lookup-expire (ddos_expired now) ip s.ddos_blocked_ips v.ddos_unique,
        rw b (lookup-expire (portscan_expired now) ip s.portscan_blocked v.scans_unique),
        rw (b, c)
            (lookup-pop_all ip (keys_where (portscan_expired now) s.portscan_blocked)
                s.portscan_state
              ∙ rw (member-keys_where (portscan_expired now) ip s.portscan_blocked v.scans_unique)),
      ),
      d,
    )

-- ===== src/Security.antt =====
-- tumba_sdn/controller/security_module.py: detection of floods, port scans and forbidden traffic.
-- `Security/Zones` holds its tables, `Security/Module` the state and the handlers; the clock is
-- read in milliseconds, and one handler reads one time. Packets come parsed, since the parsing is
-- Ryu's. The event file, the SQLite table, the log lines and the texts of `details` are left out.
pub mod Zones
pub mod Module
pub mod Scan
pub mod Blocks
pub mod Cleanup
pub mod Drops
pub mod Handlers
pub mod Floods
mod Tests

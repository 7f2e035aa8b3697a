-- ===== src/Security/Module.antt =====
-- tumba_sdn/controller/security_module.py: the state of SecurityModule and its methods. `sent` is
-- the record of the flow rules sent, each with its switch.
mod State
mod Detection
mod Inspection
mod Expiry
unfoldable pub use State.*
unfoldable pub use Detection.*
unfoldable pub use Inspection.*
unfoldable pub use Expiry.*

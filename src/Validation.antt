-- ===== src/Validation.antt =====
-- validation.py: the checks of payloads at the mIPC boundary. The first failing check raises.
pub mod Bounded
pub mod Patterns
pub mod Payload

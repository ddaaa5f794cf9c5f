-- ===== src/Tests.antt =====
-- Concrete inputs on which the theorems are used.
mod World
mod Managers
mod Values
mod Messages
mod Panels
mod Sessions
mod Radios

-- ===== src/Manager.antt =====
-- manager.py: the HAL manager. `State` has the shared fields of `HalManager` and what surrounds it,
-- `Exec` the actions, and the other modules the methods, in the order in which they build on
-- one another.
pub mod State
pub mod Exec
pub mod Responses
pub mod Gateway
pub mod Describe
pub mod Discovery
pub mod Journal
pub mod Evolution
pub mod Catalog
pub mod Probe
pub mod Inventory
pub mod Devices
pub mod Views
pub mod Providers
pub mod Selection
pub mod Requests
pub mod Handle
pub mod Polling

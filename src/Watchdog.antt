-- ===== src/Watchdog.antt =====
-- patroni/watchdog: the guard that resets the machine if the leader stops renewing its key.
pub mod Config
pub mod Device
pub mod Facade
pub mod Activation
pub mod Reload
pub mod Linux
pub mod LinuxLaws

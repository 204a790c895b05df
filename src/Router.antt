-- ===== src/Router.antt =====
-- The firmware of the router dongle, router/main.
pub mod Registry
pub mod Parser
pub mod Serial
pub mod Start
pub mod OtaPush
pub mod Central
pub mod Tests
mod FrameTests
pub mod CentralTests
mod SerialTests
mod StartTests

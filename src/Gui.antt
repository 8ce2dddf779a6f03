-- ===== src/Gui.antt =====
-- src/platform/win: the windows of the agent, and the main thread that serves them.
pub mod Layout
pub mod Texts
pub mod Placement
pub mod Range
pub mod Desktop
pub mod Stages
pub mod Changes
pub mod Consent
pub mod Blocked
pub mod Signing
pub mod Memory
pub mod Icon
pub mod Fonts
pub mod Tooltip

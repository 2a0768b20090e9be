-- ===== src/Tests.antt =====
-- The theorems at concrete inputs.
mod Variables
mod Files
mod Elevation
mod Risks
mod Template
mod Level
mod Validation
mod Database

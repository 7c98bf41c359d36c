-- ===== src/Inheritance/Tests.antt =====
-- Runs of the inheritance contract at concrete inputs.
mod Setup
mod Plans
mod Claims
mod Guards

-- ===== src/Tests.antt =====
-- Runs of the model on concrete inputs, and the theorems at such inputs.
mod World
mod Engine
mod Validation
mod Azure
mod Vault
mod Services
mod Persist
mod Targets
mod Sources
mod BrowserImport

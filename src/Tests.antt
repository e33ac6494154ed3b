-- ===== src/Tests.antt =====
-- Runs of the model on concrete inputs, and the theorems applied to them.
mod Config
mod Data
mod Handlers
mod Routing
mod Tracking
mod Registry
mod Activity
mod Upstream
mod Errors
mod Api
mod Metrics
mod Redis
mod Sidecar

-- ===== src/Tests.antt =====
-- The theorems at concrete inputs, by component.
mod Buffers
mod Output
mod Surface
mod Drain
mod Login
mod Handlers
mod Engine
mod Sessions
mod Workflows
mod CommandLine
mod Remote

-- ===== src/Tests.antt =====
-- The development on concrete inputs: runs of the code, and the theorems where they apply.
mod World
mod Pipeline
mod Traces
mod Startup
mod Logs
mod Parts
mod Findings
mod Decisions
mod Served

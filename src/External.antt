-- ===== src/External.antt =====
-- internal/plugin/external and sdk/plugin/v1/contract.go: the plugins that run in a sidecar process
-- and speak HTTP with the gateway. The encoding and decoding of JSON, the check of a URL and the text
-- of an error are parameters, and so is what the sidecar answers. Logging and metrics are left out.
-- The clock is an argument.
pub mod Client
pub mod Execute
pub mod Load
mod Outage
mod Recovery
mod Policy
mod Startup
mod Examples

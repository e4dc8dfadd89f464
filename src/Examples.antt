-- ===== src/Examples.antt =====
-- Runs of the definitions on small inputs, and each theorem at an input that meets its hypotheses.
mod Accounts
mod Security
mod Certificates
mod Pal
mod Relay
mod Dispatch
mod Collector
mod Names
mod Requests
mod Binds
mod Vault
mod SignIn

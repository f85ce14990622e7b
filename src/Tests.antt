-- ===== src/Tests.antt =====
-- Tests: each theorem that has hypotheses, at a concrete input that meets them.
mod Models
mod Texts
mod Limits
mod Queue
mod Crypto
mod Account
mod OneTime
mod Stores
mod Callbacks
mod Messages
mod Identity
mod Backend
mod Secrets
mod Chat
mod Sending
mod Jobs
mod Migration
mod Dapp
mod DappCalls
mod DappMessages
mod Modals
mod Client
mod Calls
mod Api

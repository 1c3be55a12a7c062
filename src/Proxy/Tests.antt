-- ===== src/Proxy/Tests.antt =====
-- The theorems about the proxy at concrete inputs.
mod Setup
mod Lists
mod Transfers
mod Answers

-- ===== src/Replay.antt =====
-- middleware/nonce.go and middleware/timestamp.go: the two checks against replayed requests.
pub mod Timestamp
pub mod Nonce
pub mod Laws

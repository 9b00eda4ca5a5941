-- ===== src/Auth.antt =====
-- Who may use the server: device keys, invite tokens and the challenge handshake.
-- `Signature` models the key functions of crates/bonded-core/src/auth.rs, `Invites` its tokens with
-- crates/bonded-server/src/invite_tokens.rs, `Devices` authorized_keys.rs, `Handshake`
-- auth_handshake.rs.
pub mod Signature
pub mod Invites
pub mod Devices
pub mod Handshake
mod Tests

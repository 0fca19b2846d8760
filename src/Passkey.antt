-- ===== src/Passkey.antt =====
-- server/src/passkey/: WebAuthn login beside the password, and its recovery codes.
pub mod Bytes
pub mod Cbor
pub mod CoseKey
pub mod AuthData
pub mod Recovery
pub mod Challenge
pub mod Protocol
pub mod Login
pub mod Attestation
pub mod Enroll
pub mod RecoverLogin

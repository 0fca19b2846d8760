-- ===== src/Passkey/Attestation/Tests.antt =====
-- The theorem on the scan of an attestation at a concrete input.

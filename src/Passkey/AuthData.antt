-- ===== src/Passkey/AuthData.antt =====
-- server/src/passkey/crypto.rs: the authenticator data of an assertion.
pub mod Layout
mod Tests
use rustykvm.Prelude.{
  ℕ, zero, suc, ◌+◌, ◌-◌, ◌*◌, ◌/◌, ◌%◌, ◌^◌, ◌≤◌, ◌<◌, min, String, ◌≡◌, refl, sym, ap, ◌∙◌, ◌≢◌,
  ◌↔◌, ◌⊎◌, inl, inr, Bool, true, false, not, ◌&&◌, ◌||◌, Option, none, some, List, [], ◌∷◌, ◌++◌,
  map, arith, eq_iff, str_eq, ltb, leb, ◌==◌, if◌then◌else◌, ltb→lt, lt→ltb, ltb_of_le, leb→le,
  ==_iff, tests, Bool-cases, Option-cases, is_some_and, length, get_elem?, get_elem?-of_lt, get_or,
  take, drop, replicate, any, all, retain, All, sum, sum-append, list_eq, list_eq→eq, list_eq_refl,
  length-append, length-take, length-drop, take-append-drop, length-retain-le,
}
use rustykvm.Passkey.Bytes.{byte, slice, from_be_bytes, bit}

pub record AuthenticatorData : Type 0 where
  pub rp_id_hash : List ℕ
  pub flags : ℕ
  pub counter : ℕ
  pub attested_credential_included : Bool
  pub extensions : List ℕ

-- The extensions, behind a length byte; an overlong length gives none.
extensions_of : ℕ → List ℕ → List ℕ
extensions_of flags bytes =
    if bit flags 7 && ltb 37 (length bytes)
    then (let ext_len = byte bytes 37 in
        if leb (38 + ext_len) (length bytes) then slice bytes 38 ext_len else [])
    else []

-- `AuthenticatorData::parse`
unfoldable pub parse : List ℕ → Option AuthenticatorData
unfolding extensions_of
parse bytes =
    if ltb (length bytes) 37
    then none
    else some (record {
      rp_id_hash = slice bytes 0 32;
      flags = byte bytes 32;
      counter = from_be_bytes (slice bytes 33 4);
      attested_credential_included = bit (byte bytes 32) 6;
      extensions = extensions_of (byte bytes 32) bytes;
    })

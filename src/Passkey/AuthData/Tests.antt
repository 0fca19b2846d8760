-- ===== src/Passkey/AuthData/Tests.antt =====
-- Runs of AuthenticatorData::parse in server/src/passkey/crypto.rs.
use rustykvm.Prelude.{◌≡◌, refl, none, some, [], ◌∷◌, arith, if◌then◌else◌, replicate}
use rustykvm.Passkey.AuthData.{parse}
use rustykvm.Passkey.AuthData.Layout.{print, parse-print}
use rustykvm.Passkey.Bytes.{bit}

too_short : parse (replicate 36 0) ≡ none
unfolding parse
too_short = refl

parse-print_example :
    parse (print (replicate 32 7) 0x81 258 (1 ∷ 2 ∷ []))
    ≡ some (record {
      rp_id_hash = replicate 32 7;
      flags = 0x81;
      counter = 258;
      attested_credential_included = bit 0x81 6;
      extensions = if bit 0x81 7 then 1 ∷ 2 ∷ [] else [];
    })
parse-print_example = parse-print (replicate 32 7) 0x81 258 (1 ∷ 2 ∷ []) refl (omega arith)

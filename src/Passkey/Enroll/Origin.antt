-- ===== src/Passkey/Enroll/Origin.antt =====
-- The origin that an enrollment expects, against the address that the setup answers.
use rustykvm.Prelude.{
  ℕ, String, ◌≡◌, refl, sym, ap, ◌≢◌, inl, inr, false, Option, none, some, arith, eq_iff, str_eq,
  Bool-cases,
}
use rustykvm.Prelude.{str_append}
use Prim.Native.String.{count}
use text.Mathlib.TextLemmas.{length-append as count-append}
use rustykvm.Passkey.Challenge.{
  PendingChallenge, PasskeyServer, is_expired, new_enrollment_challenge,
}
use rustykvm.Passkey.Protocol.{ClientFields, Library, expected_origin}
use rustykvm.Passkey.Login.{client_json}
use rustykvm.Passkey.Enroll.{
  SetupIo, SetupResponse, setup_url, begin_enrollment, passkey_setup_handler, EnrollRequest,
  no_codes, EnrollIo, Enrollment, is_enrollable, check_enrollment, store_credential,
  enroll_complete_handler,
}

-- The scheme is never a second time where it was.
prefixed_url : (url : String) → str_append "https://" url ≢ url
prefixed_url url e =
    let sizes : count (str_append "https://" url) ≡ count url = ap count e in
    absurd (omega (arith, sizes, count-append "https://" url))

setup-pending :
    (io : SetupIo) (now : ℕ) (s : PasskeyServer) (o : Option String) (r : SetupResponse)
    → (begin_enrollment io now s o).1 ≡ some r
    → (begin_enrollment io now s o).0.pending_challenge
      ≡ some (
          new_enrollment_challenge now io.challenge_id io.challenge r.funnel_url none
            io.setup_token)
unfolding begin_enrollment
setup-pending io now s none r h = cc
setup-pending io now s (some url) r h = let same : r.funnel_url ≡ url = ground arith in rw same

passkey_setup-pending :
    (io : SetupIo) (now : ℕ) (s : PasskeyServer) (r : SetupResponse)
    → (passkey_setup_handler io now s).1 ≡ some r
    → (passkey_setup_handler io now s).0.pending_challenge
      ≡ some (
          new_enrollment_challenge now io.challenge_id io.challenge r.funnel_url none
            io.setup_token)
unfolding passkey_setup_handler
passkey_setup-pending io now s r h = ground (arith, setup-pending io now s (setup_url io) r)

module _ (lib : Library) where
  foreign_origin :
      (req : EnrollRequest) (c : PendingChallenge) (f : ClientFields)
      → lib.client_fields (client_json lib req.client_data_json) ≡ some f
      → f.origin ≡ some c.rp_id
      → is_enrollable lib req c ≡ false
  unfolding is_enrollable
  foreign_origin req c f reads here =
      let other : str_eq c.rp_id (expected_origin c) ≡ false =
        elim (Bool-cases (str_eq c.rp_id (expected_origin c))) [
          | inl same ↦
              absurd (prefixed_url c.rp_id (sym ((eq_iff c.rp_id (expected_origin c)).0 same)))
          | inr differs ↦ differs
        ] in
      rw (reads, here) (ground arith)

  -- After a setup that answers an address, an enrollment whose client data name that address as their
  -- origin, as a page at that address has it, is refused whatever else it holds, and nothing changes.
  pub page_origin_refused :
      (setup : SetupIo) (io : EnrollIo) (random : ℕ → ℕ → ℕ) (then_ now : ℕ) (s : PasskeyServer)
      (r : SetupResponse) (req : EnrollRequest) (e : Enrollment) (f : ClientFields)
      → (passkey_setup_handler setup then_ s).1 ≡ some r
      → e.server ≡ (passkey_setup_handler setup then_ s).0
      → lib.client_fields (client_json lib req.client_data_json) ≡ some f
      → f.origin ≡ some r.funnel_url
      → enroll_complete_handler lib io random now req e ≡ (e, no_codes)
  unfolding enroll_complete_handler store_credential check_enrollment
  page_origin_refused setup io random then_ now s r req e f answered here reads origin =
      let c =
        new_enrollment_challenge then_ setup.challenge_id setup.challenge r.funnel_url none
          setup.setup_token in
      let pending : e.server.pending_challenge ≡ some c =
        rw here (passkey_setup-pending setup then_ s r answered) in
      let refused = foreign_origin req c f reads origin in
      elim (Bool-cases (is_expired now c)) [
        | inl late ↦ rw (pending, late) refl
        | inr timely ↦ rw (pending, timely, refused) refl
      ]

-- ===== src/Auth/Session/Tokens.antt =====
-- Which requests the middleware passes on, and what a login and a logout change about it.
use rustykvm.Prelude.{
  ℕ, ◌+◌, ◌≤◌, String, ◌≡◌, refl, sym, ◌∙◌, ◌↔◌, inl, inr, Bool, true, false, not, ◌||◌, Option,
  none, some, arith, str_eq, if◌then◌else◌, Bool-cases,
}
use Prim.Native.String.{slice}
use mathlib.Core.Option.{some-injective}
use text.Mathlib.Text.{starts_with}
use text.Mathlib.TextEquality.{starts_with_iff}
use text.Mathlib.TextPositions.{len-append, slice-append_right}
use rustykvm.Prelude.{◌⊎◌, ap, eq_iff, str_append}
use rustykvm.Auth.BruteForce.{SaveIo, Kept}
use rustykvm.Auth.Login.{
  Claims, LoginReq, Account, LoginConfig, LoginLibrary, claims_of, login_handler_inner,
}
use rustykvm.Auth.Login.Checks.{login_passed}
use rustykvm.Auth.Session.{
  SessionLibrary, Sessions, Request, next, forbidden, unauthorized, allows_during_password_change,
  bearer, request_token, check_claims, check_token, auth_middleware, logout_handler,
}

-- The paths for changing the password.
abbrev pub IsOpen : String → Type 0
IsOpen path =
    (path ≡ "/api/auth/password")
    ⊎ ((path ≡ "/api/auth/account") ⊎ ((path ≡ "/api/auth/logout") ⊎ (path ≡ "/api/logout")))

-- The request's token: that of the cookie, or without one what follows Bearer in the header.
abbrev pub Carries : Request → String → Type 0
Carries req token =
    (req.cookie ≡ some token)
    ⊎ ((req.cookie ≡ none) × (req.authorization ≡ some (str_append "Bearer " token)))

allowed-IsOpen : (path : String) → allows_during_password_change path ≡ true → IsOpen path
unfolding allows_during_password_change
allowed-IsOpen path h = ground (
  arith,
  h,
  eq_iff "/api/auth/password" path,
  eq_iff "/api/auth/account" path,
  eq_iff "/api/auth/logout" path,
  eq_iff "/api/logout" path,
)

allows-IsOpen : (path : String) → IsOpen path → allows_during_password_change path ≡ true
unfolding allows_during_password_change
allows-IsOpen path (inl e) = rw e refl
allows-IsOpen path (inr (inl e)) = rw e refl
allows-IsOpen path (inr (inr (inl e))) = rw e refl
allows-IsOpen path (inr (inr (inr e))) = rw e refl

-- Behind the seven bytes of the prefix.
bearer-token : (token : String) → bearer (some (str_append "Bearer " token)) ≡ some token
unfolding bearer
bearer-token token = rw ((starts_with_iff (str_append "Bearer " token) "Bearer ").1 (token, refl)) (
    ap some (
      ap (λ n. slice (str_append "Bearer " token) 7 n) (len-append "Bearer " token)
      ∙ slice-append_right "Bearer " token))

bearer-some :
    (o : Option String) (token : String)
    → bearer o ≡ some token
    → o ≡ some (str_append "Bearer " token)
unfolding bearer
bearer-some none token h = cc
bearer-some (some header) token h = elim (Bool-cases (starts_with header "Bearer ")) [
  | inr e ↦ absurd (ground (arith, e, h))
  | inl e ↦
      let (rest, same) = (starts_with_iff header "Bearer ").0 e in
      let read : bearer (some header) ≡ some rest =
        ap (λ v. bearer (some v)) (sym same) ∙ bearer-token rest in
      let one : rest ≡ token = some-injective rest token (sym read ∙ h) in
      ap some (sym same ∙ ap (λ v. str_append "Bearer " v) one)
]

request_token-Carries :
    (cookie authorization : Option String) (path token : String)
    → request_token (record { cookie = cookie; authorization = authorization; path = path })
      ≡ some token
    → Carries (record { cookie = cookie; authorization = authorization; path = path }) token
unfolding request_token
request_token-Carries (some c) authorization path token h = inl h
request_token-Carries none authorization path token h =
    inr (refl, bearer-some authorization token h)

carried : (req : Request) (token : String) → Carries req token → request_token req ≡ some token
unfolding request_token
carried req token (inl e) = rw e refl
carried req token (inr (n, e)) = rw (n, e) (bearer-token token)

-- Claims with which the path may be entered.
abbrev pub Admits : String → Claims → Type 0
Admits path claims = (claims.requires_password_change ≡ false) ⊎ IsOpen path

module _ (lib : SessionLibrary) where
  -- A token of the request that is decoded under the key in memory, with claims that admit the path.
  abbrev pub IsAdmitted : Sessions → ℕ → Request → Type 0
  IsAdmitted s now req =
      (token : String) × (claims : Claims) × Carries req token
      × (lib.decode s.jwt_secret now token ≡ some claims)
      × Admits req.path claims

  claims_passed :
      (path : String) (o : Option Claims)
      → check_claims path o ≡ next
      → (claims : Claims) × (o ≡ some claims) × Admits path claims
  claims_passed path none h = cc
  claims_passed path (some claims) h = elim (Bool-cases claims.requires_password_change) [
    | inr e ↦ (claims, refl, inl e)
    | inl e ↦ elim (Bool-cases (allows_during_password_change path)) [
      | inl a ↦ (claims, refl, inr (allowed-IsOpen path a))
      | inr a ↦ absurd (ground (arith, e, a))
    ]
  ]

  claims-next :
      (path : String) (claims : Claims)
      → Admits path claims
      → check_claims path (some claims) ≡ next
  claims-next path claims (inl e) = rw e refl
  claims-next path claims (inr o) =
      rw (allows-IsOpen path o) (elim (Bool-cases claims.requires_password_change) [
        | inl e ↦ rw e refl
        | inr e ↦ rw e refl
      ])

  token_passed :
      (s : Sessions) (now : ℕ) (req : Request) (o : Option String)
      → request_token req ≡ o
      → check_token lib s now req.path o ≡ next
      → IsAdmitted s now req
  token_passed s now req none e h = cc
  token_passed s now req (some token) e h =
      let (claims, d, a) = claims_passed req.path (lib.decode s.jwt_secret now token) h in
      (token, claims, request_token-Carries req.cookie req.authorization req.path token e, d, a)

  -- Where authentication is on, auth_middleware passes a request on exactly if its token, of the cookie or
  -- else what follows Bearer in the header, is decoded under the key in memory, and the claims do
  -- not ask for a new password or the path is /api/auth/password, /api/auth/account, /api/auth/logout or
  -- /api/logout.
  pub auth_middleware-IsAdmitted :
      (authentication : String) (s : Sessions) (now : ℕ) (req : Request)
      → str_eq authentication "disable" ≡ false
      → (auth_middleware lib authentication s now req ≡ next) ↔ IsAdmitted s now req
  unfolding auth_middleware
  auth_middleware-IsAdmitted authentication s now req on = (
    λ h. token_passed s now req (request_token req) refl (sym (rw on refl) ∙ h),
    λ (token, claims, t, d, a). rw (on, carried req token t, d) (claims-next req.path claims a),
  )

  -- The login signs its claims with the key in memory.
  abbrev pub IsSigner :
      LoginLibrary → LoginConfig → ℕ → String → LoginReq → Account → Sessions → Type 0
  IsSigner login cfg now session_id req account s =
      login.encode (claims_of login cfg now session_id req account)
      ≡ lib.encode s.jwt_secret (claims_of login cfg now session_id req account)

  -- Until it expires.
  login_token_admitted :
      (login : LoginLibrary) (cfg : LoginConfig) (io : SaveIo) (now t : ℕ) (ip session_id : String)
      (req : LoginReq) (account : Account) (k : Kept) (token path : String)
      (authorization : Option String) (s : Sessions)
      → str_eq cfg.authentication "disable" ≡ false
      → (login_handler_inner login cfg io now ip session_id req account k).1.cookie ≡ some token
      → IsSigner login cfg now session_id req account s
      → ((n : ℕ) (w : String)
          → lib.encode s.jwt_secret (claims_of login cfg now session_id req account) ≡ some w
          → n ≤ now + cfg.refresh_token_duration
          → lib.decode s.jwt_secret n w ≡ some (claims_of login cfg now session_id req account))
      → t ≤ now + cfg.refresh_token_duration
      → auth_middleware lib cfg.authentication s t
          (record { cookie = some token; authorization = authorization; path = path })
        ≡ (if not account.must_change_password || allows_during_password_change path
            then next
            else forbidden)
  unfolding auth_middleware request_token
  login_token_admitted login cfg io now t ip session_id req account k token path authorization s on
        cookie same decoded early =
      let (free, name, right, signed, cleared) =
        login_passed login cfg io now ip session_id req account k token on cookie in
      let c = claims_of login cfg now session_id req account in
      let e : lib.encode s.jwt_secret c ≡ some token = sym same ∙ signed in
      rw (on, decoded t token e early) refl

  -- After a logout.
  logout-unauthorized :
      (login : LoginLibrary) (cfg : LoginConfig) (io : SaveIo) (now t : ℕ) (ip session_id : String)
      (req : LoginReq) (account : Account) (k : Kept) (token path new_secret : String)
      (is_saved : Bool) (authorization : Option String) (s : Sessions)
      → str_eq cfg.authentication "disable" ≡ false
      → (login_handler_inner login cfg io now ip session_id req account k).1.cookie ≡ some token
      → IsSigner login cfg now session_id req account s
      → ((c : Claims) (n : ℕ) (w : String)
          → lib.encode s.jwt_secret c ≡ some w
          → lib.decode new_secret n w ≡ none)
      → auth_middleware lib cfg.authentication
          (logout_handler true new_secret is_saved s).0
          t
          (record { cookie = some token; authorization = authorization; path = path })
        ≡ unauthorized
  unfolding auth_middleware request_token logout_handler
  logout-unauthorized login cfg io now t ip session_id req account k token path new_secret is_saved
        authorization s on cookie same apart =
      let (free, name, right, signed, cleared) =
        login_passed login cfg io now ip session_id req account k token on cookie in
      let c = claims_of login cfg now session_id req account in
      rw (on, apart c t token (sym same ∙ signed)) refl

  -- The token of a login with a password passes the middleware until it expires: on every path if the account
  -- needs no new password, else on the paths for changing it. After a logout that revokes the
  -- tokens it is answered 401, on every path and at any time. The login signs with the key in memory, what
  -- was signed with it is decoded with it before its time is over, and never with the new key.
  pub login_until_logout :
      (login : LoginLibrary) (cfg : LoginConfig) (io : SaveIo) (now t : ℕ) (ip session_id : String)
      (req : LoginReq) (account : Account) (k : Kept) (token path new_secret : String)
      (is_saved : Bool) (authorization : Option String) (s : Sessions)
      → str_eq cfg.authentication "disable" ≡ false
      → (login_handler_inner login cfg io now ip session_id req account k).1.cookie ≡ some token
      → IsSigner login cfg now session_id req account s
      → ((n : ℕ) (w : String)
          → lib.encode s.jwt_secret (claims_of login cfg now session_id req account) ≡ some w
          → n ≤ now + cfg.refresh_token_duration
          → lib.decode s.jwt_secret n w ≡ some (claims_of login cfg now session_id req account))
      → ((c : Claims) (n : ℕ) (w : String)
          → lib.encode s.jwt_secret c ≡ some w
          → lib.decode new_secret n w ≡ none)
      → (t ≤ now + cfg.refresh_token_duration
          → auth_middleware lib cfg.authentication s t
              (record { cookie = some token; authorization = authorization; path = path })
            ≡ (if not account.must_change_password || allows_during_password_change path
                then next
                else forbidden))
        × (auth_middleware lib cfg.authentication
              (logout_handler true new_secret is_saved s).0
              t
              (record { cookie = some token; authorization = authorization; path = path })
            ≡ unauthorized)
  login_until_logout login cfg io now t ip session_id req account k token path new_secret is_saved
        authorization s on cookie same decoded apart =
      (
        λ early.
            login_token_admitted login cfg io now t ip session_id req account k token path
              authorization s on cookie same decoded early,
        logout-unauthorized login cfg io now t ip session_id req account k token path new_secret
            is_saved authorization s on cookie same apart,
      )

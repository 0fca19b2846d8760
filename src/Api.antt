-- ===== src/Api.antt =====
-- server/src/api.rs: the response wrapper of every HTTP handler.
pub mod ErrorCodes
use rustykvm.Prelude.{String, Option, none, some}
use rustykvm.Prelude.Int.{ℤ, pos}

pub record ApiResponse {ℓ} (T : Type ℓ) : Type ℓ where
  pub code : ℤ
  pub msg : String
  pub payload : Option T

-- `ApiResponse::ok`
abbrev pub api_ok {ℓ} : {T : Type ℓ} → T → ApiResponse T
api_ok value = record { code = pos 0; msg = "success"; payload = some value }

-- `ApiResponse::err`
abbrev pub api_err {ℓ} : {T : Type ℓ} → ℤ → String → ApiResponse T
api_err code msg = record { code = code; msg = msg; payload = none }

-- `ApiResponse::ok_empty`: the empty object stands for no data.
abbrev pub api_ok_empty : ApiResponse {0} Unit
api_ok_empty = api_ok tt

-- ===== src/Api/ErrorCodes.antt =====
-- server/src/api.rs: the error codes; 0 is success, and every error is negative.
use rustykvm.Prelude.Int.{ℤ, negsuc}

abbrev pub generic : ℤ
generic = negsuc 0

abbrev pub auth : ℤ
auth = negsuc 1

abbrev pub validation : ℤ
validation = negsuc 2

abbrev pub not_found : ℤ
not_found = negsuc 3

abbrev pub locked : ℤ
locked = negsuc 4

abbrev pub hardware : ℤ
hardware = negsuc 6

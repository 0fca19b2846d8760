-- ===== src/Auth/Password/Tests.antt =====
-- Runs of server/src/utils.rs, with a digest that repeats the input's length.
use rustykvm.Prelude.{◌≡◌, refl, none, some, [], ◌∷◌, length, replicate}
use rustykvm.Auth.Password.{PasswordLibrary, derive_key_iv, decrypt_password}

abbrev lib : PasswordLibrary
lib = record {
  url_decode = λ s. some s;
  decode = λ _. some (replicate 20 0);
  md5 = λ bytes. replicate 16 (length bytes);
  decrypt_padded = λ _ _ _. none;
  from_utf8_lossy = λ _. "";
  secret_key = none;
}

unsalted : decrypt_password lib "password" ≡ none
unfolding decrypt_password
unsalted = refl

-- The second digest is over the first one too.
derives : derive_key_iv lib (1 ∷ []) (2 ∷ []) 16 4 ≡ (replicate 16 2, replicate 4 18)
unfolding derive_key_iv
derives = refl

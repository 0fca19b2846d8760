-- ===== src/Auth/Session/Changes.antt =====
-- What a change of the password leaves.
use rustykvm.Prelude.{String, ◌≡◌, refl, true, false, none, some, eq_iff, ◌==◌}
use rustykvm.Prelude.{utf8_length, str_append}
use rustykvm.Api.{api_ok, api_err}
use rustykvm.Api.ErrorCodes
use rustykvm.Auth.Password.{decrypt_password}
use rustykvm.Auth.Login.{Account, LoginLibrary, is_right}
use rustykvm.Auth.Session.{
  SessionLibrary, Sessions, get_account, or_hash, saved, ChangeIo, save_updated,
  change_password_handler,
}

module _ (lib : SessionLibrary) (o : ChangeIo) (username password plain hashed : String)
    (s : Sessions) where
  abbrev updated : Account
  updated = record { username = username; password = hashed; must_change_password = false }

  reached :
      username ≡ (get_account lib s.account).username
      → decrypt_password lib.password password ≡ some plain
      → (utf8_length plain == 0) ≡ false
      → lib.hash plain ≡ some hashed
      → change_password_handler lib o username password s ≡ save_updated o s updated o.save
  unfolding change_password_handler
  reached name decrypted long hash =
      rw ((eq_iff username (get_account lib s.account).username).1 name, decrypted, long, hash) refl

  -- A change of the password under the account's name that saves the file and sets the root's password answers
  -- success, and a login with the same name and the same encrypted password is then right, with no
  -- new password asked for, where bcrypt accepts a password for its own hash.
  pub changed_password-is_right :
      (login : LoginLibrary)
      → username ≡ (get_account lib s.account).username
      → decrypt_password lib.password password ≡ some plain
      → (utf8_length plain == 0) ≡ false
      → lib.hash plain ≡ some hashed
      → o.save ≡ saved
      → o.passwd ≡ none
      → decrypt_password login.password password ≡ some plain
      → login.verify plain hashed ≡ some true
      → let (after, answer) = change_password_handler lib o username password s in
        (answer ≡ api_ok tt)
        × (is_right login
              (record { username = username; password = password })
              (get_account lib after.account)
            ≡ true)
        × ((get_account lib after.account).must_change_password ≡ false)
  unfolding get_account
  changed_password-is_right login name decrypted long hash written root decrypted_too verified =
      rw (reached name decrypted long hash, written, root)
        (refl, rw (decrypted_too, verified) ((eq_iff username username).1 refl), refl)

  -- When the account's file is saved but the root's password cannot be set, and the file is then removed, the
  -- account is the default one again: the name admin with the password admin, whatever it was before.
  pub root_failure_resets :
      (e : String)
      → username ≡ (get_account lib s.account).username
      → decrypt_password lib.password password ≡ some plain
      → (utf8_length plain == 0) ≡ false
      → lib.hash plain ≡ some hashed
      → o.save ≡ saved
      → o.passwd ≡ some e
      → o.is_removed ≡ true
      → let (after, answer) = change_password_handler lib o username password s in
        (answer ≡ api_err ErrorCodes.generic (str_append "failed to change root password: " e))
        × (get_account lib after.account ≡ record {
          username = "admin";
          password = or_hash (lib.hash "admin");
          must_change_password = true;
        })
  unfolding get_account
  root_failure_resets e name decrypted long hash written root removed =
      rw (reached name decrypted long hash, written, root, removed) (refl, refl)

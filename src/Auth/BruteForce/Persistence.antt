-- ===== src/Auth/BruteForce/Persistence.antt =====
-- The state file: what survives a restart. `serde_json` is outside the repository: its two
-- functions are parameters, and the text of the saved map reads back with the same entries.
use rustykvm.Prelude.{ℕ, String, ◌≡◌, refl, true, false, ◌&&◌, Option, some, arith}
use rustykvm.Prelude.Assoc.{Assoc, lookup}
use rustykvm.Auth.BruteForce.{
  Security, LoginAttempt, BruteForce, SaveIo, Kept, new, check, is_enabled, record_failure, clear,
  save, load, record_failure_kept, clear_kept,
}

-- serde_json reads what it wrote of the map `m`; the order of the entries may differ.
pub record RoundTrips (to_string : Assoc LoginAttempt → Option String)
    (from_str : String → Option (Assoc LoginAttempt)) (m : Assoc LoginAttempt) : Type 0 where
  pub json : String
  pub read : Assoc LoginAttempt
  pub writes : to_string m ≡ some json
  pub reads : from_str json ≡ some read
  pub same : (k : String) → lookup k read ≡ lookup k m

module _ (to_string : Assoc LoginAttempt → Option String)
    (from_str : String → Option (Assoc LoginAttempt)) where
  check-load :
      (m : Assoc LoginAttempt) (bf : BruteForce) (t : ℕ) (j : String)
      → lookup j m ≡ lookup j bf.attempts
      → check (record { attempts = m; security = bf.security }) t j ≡ check bf t j
  unfolding check
  check-load m bf t j e = rw e refl

  check-load-save :
      (io : SaveIo) (bf : BruteForce) (s : Security) (t : ℕ) (j : String) (file : Option String)
      → RoundTrips to_string from_str bf.attempts
      → bf.security ≡ s
      → io.written && io.renamed ≡ true
      → check (load from_str (save to_string io bf file) (new s)) t j ≡ check bf t j
  unfolding save load
  check-load-save io bf s t j file codec kept done =
      let w : io.written ≡ true = ground arith in
      let r : io.renamed ≡ true = ground arith in
      rw (← kept, codec.writes, w, r, codec.reads, load)
        (check-load codec.read bf t j (codec.same j))

  save_failed :
      (io : SaveIo) (bf : BruteForce) (file : Option String)
      → io.written && io.renamed ≡ false
      → save to_string io bf file ≡ file
  unfolding save
  save_failed io bf file broken = ground arith

  security-record_failure :
      (bf : BruteForce) (now : ℕ) (ip : String)
      → (record_failure bf now ip).0.security ≡ bf.security
  unfolding record_failure
  security-record_failure bf now ip = ground arith

  -- A failed login on an enabled protection, whatever the file system answers. If the file was
  -- written and renamed, a server that starts anew on it answers every address at every time as the
  -- running one does; if either step failed, the old file is left whole.
  pub failure_kept :
      (io : SaveIo) (k : Kept) (now t : ℕ) (ip j : String)
      → is_enabled k.memory.security ≡ true
      → RoundTrips to_string from_str (record_failure k.memory now ip).0.attempts
      → let after = (record_failure_kept to_string io k now ip).0 in
        (io.written && io.renamed ≡ true
          → check (load from_str after.file (new k.memory.security)) t j ≡ check after.memory t j)
        × (io.written && io.renamed ≡ false → after.file ≡ k.file)
  unfolding record_failure_kept
  failure_kept io k now t ip j on codec =
      let bf = (record_failure k.memory now ip).0 in
      rw on (
        check-load-save io bf k.memory.security t j k.file codec
            (security-record_failure k.memory now ip),
        save_failed io bf k.file,
      )

  security-clear : (bf : BruteForce) (ip : String) → (clear bf ip).security ≡ bf.security
  unfolding clear
  security-clear bf ip = ground arith

  -- The same of a successful login, which forgets the address.
  pub success_kept :
      (io : SaveIo) (k : Kept) (t : ℕ) (ip j : String)
      → is_enabled k.memory.security ≡ true
      → RoundTrips to_string from_str (clear k.memory ip).attempts
      → let after = clear_kept to_string io k ip in
        (io.written && io.renamed ≡ true
          → check (load from_str after.file (new k.memory.security)) t j ≡ check after.memory t j)
        × (io.written && io.renamed ≡ false → after.file ≡ k.file)
  unfolding clear_kept
  success_kept io k t ip j on codec =
      let bf = clear k.memory ip in
      rw on (
        check-load-save io bf k.memory.security t j k.file codec (security-clear k.memory ip),
        save_failed io bf k.file,
      )

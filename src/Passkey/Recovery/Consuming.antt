-- ===== src/Passkey/Recovery/Consuming.antt =====
-- Each recovery code works once, and what the answers say.
use rustykvm.Prelude.{
  ℕ, ◌+◌, ◌-◌, String, ◌≡◌, refl, ◌∙◌, true, false, not, ◌&&◌, some, List, [], ◌∷◌, arith, ltb,
  if◌then◌else◌, length,
}
use rustykvm.Prelude.Result.{ok, is_complete, written_file-is_complete}
use rustykvm.Prelude.Text.{Text}
use rustykvm.Passkey.Recovery.{
  RecoveryCode, unused_count, normalize, matches, scan, consume, Recovery, SaveIo, redeem,
  validate_and_consume_code, check_rate_limit,
}

-- The unused codes that a text matches.
unfoldable pub live_matches : Text → List RecoveryCode → ℕ
live_matches normalized [] = 0
live_matches normalized (c ∷ cs) =
    (if matches normalized c && not c.used then 1 else 0) + live_matches normalized cs

scan_lem :
    (normalized : Text) (cs : List RecoveryCode)
    → ((scan normalized cs).0 ≡ ltb 0 (live_matches normalized cs))
      × ((scan normalized cs).1 + live_matches normalized cs ≡ length cs)
unfolding scan live_matches
scan_lem normalized [] = (refl, refl)
scan_lem normalized (c ∷ cs) = ground (arith, scan_lem normalized cs)

consume_lem :
    (normalized : Text) (cs : List RecoveryCode)
    → (live_matches normalized (consume normalized cs) ≡ live_matches normalized cs - 1)
      × (unused_count (consume normalized cs)
            + (if ltb 0 (live_matches normalized cs) then 1 else 0)
          ≡ unused_count cs)
      × (length (consume normalized cs) ≡ length cs)
unfolding consume live_matches unused_count
consume_lem normalized [] = (refl, refl, refl)
consume_lem normalized (c ∷ cs) = ground (arith, consume_lem normalized cs)

consume_unmatched :
    (normalized : Text) (cs : List RecoveryCode)
    → live_matches normalized cs ≡ 0
    → consume normalized cs ≡ cs
unfolding consume live_matches
consume_unmatched normalized [] h = refl
consume_unmatched normalized (c ∷ cs) h = ground (arith, consume_unmatched normalized cs)

redeem_lem :
    (io : SaveIo) (normalized : Text) (cs : List RecoveryCode)
    → is_complete io.written && io.permitted ≡ true
    → redeem io normalized cs ≡ (
      some (consume normalized cs),
      ok (ltb 0 (live_matches normalized cs), length cs - live_matches normalized cs),
    )
unfolding redeem
redeem_lem io normalized cs works =
    let saved : is_complete io.written ≡ true = ground arith in
    let file = written_file-is_complete io.written (consume normalized cs) saved in
    ground (arith, scan_lem normalized cs, consume_unmatched normalized cs, file)

-- A call that the rate limit allows, on a file that loads, where the save goes through. It succeeds
-- exactly if some unused code matches what was typed. One code of those that match is then used up, and
-- the number of unused codes falls by one; if none matches, the codes stay as they are. The number that
-- is answered counts every code but the unused ones that matched: it counts used codes as remaining.
pub validate_and_consume_code_lem :
    (tables : ℕ → Text) (io : SaveIo) (now later : ℕ) (ip : String) (input : Text) (r : Recovery)
    (cs : List RecoveryCode)
    → (check_rate_limit now ip r.limits).1 ≡ true
    → r.file ≡ some cs
    → is_complete io.written && io.permitted ≡ true
    → let (r', answer) = validate_and_consume_code tables io now later ip input r in
      let typed = normalize tables input in
      let cs' = consume typed cs in
      (r'.file ≡ some cs')
      × (answer ≡ ok (ltb 0 (live_matches typed cs), length cs - live_matches typed cs))
      × (live_matches typed cs' ≡ live_matches typed cs - 1)
      × (unused_count cs' + (if ltb 0 (live_matches typed cs) then 1 else 0) ≡ unused_count cs)
      × (live_matches typed cs ≡ 0 → cs' ≡ cs)
unfolding validate_and_consume_code
validate_and_consume_code_lem tables io now later ip input r cs allowed loaded works =
    let typed = normalize tables input in
    let counts = consume_lem typed cs in
    rw (allowed, loaded, redeem_lem io typed cs works)
      (refl, refl, counts.0, counts.1, consume_unmatched typed cs)

-- A code that is the only unused one to match works once: after a first call that succeeds with it, a
-- second call with a text that normalises to the same, from any address, is answered false.
pub code_works_once :
    (tables : ℕ → Text) (io : SaveIo) (now later now' later' : ℕ) (ip ip' : String)
    (input input' : Text) (r : Recovery) (cs : List RecoveryCode)
    → is_complete io.written && io.permitted ≡ true
    → r.file ≡ some cs
    → live_matches (normalize tables input) cs ≡ 1
    → normalize tables input' ≡ normalize tables input
    → (check_rate_limit now ip r.limits).1 ≡ true
    → let first = validate_and_consume_code tables io now later ip input r in
      (check_rate_limit now' ip' first.0.limits).1 ≡ true
      → (first.1 ≡ ok (true, length cs - 1))
        × ((validate_and_consume_code tables io now' later' ip' input' first.0).1
            ≡ ok (false, length cs))
code_works_once tables io now later now' later' ip ip' input input' r cs works loaded once same
      allowed allowed' =
    let typed = normalize tables input in
    let first =
      validate_and_consume_code_lem tables io now later ip input r cs allowed loaded works in
    let r' = (validate_and_consume_code tables io now later ip input r).0 in
    let second =
      validate_and_consume_code_lem tables io now' later' ip' input' r' (consume typed cs) allowed'
        first.0 works in
    let spent : live_matches typed (consume typed cs) ≡ 0 = first.2 ∙ omega (arith, once) in
    let n = (consume_lem typed cs).2 in
    let sub_nothing : length cs - 0 ≡ length cs = omega arith in
    (first.1 ∙ rw once refl, second.1 ∙ rw (same, spent, n, sub_nothing) refl)

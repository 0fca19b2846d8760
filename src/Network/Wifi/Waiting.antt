-- ===== src/Network/Wifi/Waiting.antt =====
-- When a network counts as joined.
use rustykvm.Prelude.{
  ℕ, zero, suc, ◌+◌, ◌≤◌, ◌<◌, ◌≡◌, refl, sym, ap, ◌∙◌, ◌↔◌, inl, inr, true, false, Option, some,
  [], arith, ◌==◌, ==_iff, Bool-cases,
}
use rustykvm.Prelude.{◌⊎◌, none, list_eq→eq}
use rustykvm.Prelude.Result.{ok, err}
use rustykvm.Prelude.Text.{Text, codes, trim}
use rustykvm.Network.Error.{written, command_failed}
use rustykvm.Network.Wifi.{WifiFiles, WifiWrites, is_wifi_connected, wait_connected, connect_wifi}

module _ (state : ℕ → Option Text) where
  later :
      (i j : ℕ)
      → i ≤ j
      → is_wifi_connected (state i) ≡ false
      → is_wifi_connected (state j) ≡ true
      → i + 1 ≤ j
  later i j a e c = elim (Bool-cases (i == j)) [
    | inl q ↦
        let same : i ≡ j = (==_iff i j).0 q in
        let both : false ≡ true = sym e ∙ ap (λ k. is_wifi_connected (state k)) same ∙ c in cc
    | inr q ↦ ground arith
  ]

wait_lem :
    (state : ℕ → Option Text) (rounds i : ℕ)
    → (wait_connected state i rounds ≡ ok tt)
      ↔ ((j : ℕ) × (i ≤ j) × (j < i + rounds) × (is_wifi_connected (state j) ≡ true))
unfolding wait_connected
wait_lem state zero i = (λ h. cc, λ (j, a, b, c). absurd (omega arith))
wait_lem state (suc rounds) i = elim (Bool-cases (is_wifi_connected (state i))) [
  | inl e ↦ (λ h. (i, omega arith, omega arith, e), λ w. rw e refl)
  | inr e ↦
      let (there, back) = wait_lem state rounds (i + 1) in
      (
        λ h. let (j, a, b, c) = there (sym (rw e refl) ∙ h) in (j, omega arith, omega arith, c),
        λ (j, a, b, c). rw e (back (j, later state i j a e c, omega arith, c)),
      )
]

-- After one of the first 30 seconds the state file is read, and says 1 within white space.
abbrev pub IsJoined : (ℕ → Option Text) → Type 0
IsJoined state =
    (j : ℕ) × (content : Text) × (j < 30) × (state j ≡ some content) × (trim content ≡ codes "1")

says_1 :
    (o : Option Text)
    → is_wifi_connected o ≡ true
    → (content : Text) × (o ≡ some content) × (trim content ≡ codes "1")
unfolding is_wifi_connected
says_1 none h = cc
says_1 (some content) h = (content, refl, list_eq→eq (trim content) (codes "1") h)

connected_if :
    (o : Option Text) (content : Text)
    → o ≡ some content
    → trim content ≡ codes "1"
    → is_wifi_connected o ≡ true
unfolding is_wifi_connected
connected_if o content e h = rw e (rw h refl)

wait_ends :
    (state : ℕ → Option Text) (rounds i : ℕ)
    → (wait_connected state i rounds ≡ ok tt)
      ⊎ (wait_connected state i rounds ≡ err (command_failed "Connection timed out"))
unfolding wait_connected
wait_ends state zero i = inr refl
wait_ends state (suc rounds) i = elim (Bool-cases (is_wifi_connected (state i))) [
  | inl e ↦ inl (rw e refl)
  | inr e ↦ rw e (wait_ends state rounds (i + 1))
]

-- When the three files are written, connect_wifi succeeds exactly if, after one of the first 30 seconds,
-- the state file can be read and says 1 within white space, and is timed out otherwise; the name and the
-- password are in their files either way.
pub connect_wifi-IsJoined :
    (w : WifiWrites) (state : ℕ → Option Text) (ssid password : Text) (f : WifiFiles)
    → w.ssid ≡ written
    → w.passwd ≡ written
    → w.connect ≡ written
    → (((connect_wifi w state ssid password f).0 ≡ ok tt) ↔ IsJoined state)
      × (((connect_wifi w state ssid password f).0 ≡ ok tt)
          ⊎ ((connect_wifi w state ssid password f).0
              ≡ err (command_failed "Connection timed out")))
      × ((connect_wifi w state ssid password f).1
          ≡ record { ssid = some ssid; passwd = some password; connect = some [] })
unfolding connect_wifi
connect_wifi-IsJoined w state ssid password f a b c =
    let (there, back) = wait_lem state 30 0 in
    rw (a, b, c)
      (
        (
          λ h.
              let (j, l, m, e) = there h in
              let (content, read, one) = says_1 (state j) e in (j, content, m, read, one),
          λ (j, content, m, read, one).
              back (j, omega arith, m, connected_if (state j) content read one),
        ),
        wait_ends state 30 0,
        refl,
      )

-- ===== src/Network/Netmask/Cidr.antt =====
-- Every prefix length has a netmask that stands for it.
use rustykvm.Prelude.{ℕ, ◌≤◌, ◌≡◌, refl, ap, Bool, true, false, ◌&&◌, arith, ◌==◌, ==_iff}
use rustykvm.Prelude.{all_below, all_below→test, both_true}
use rustykvm.Prelude.Result.{Result, ok, err}
use rustykvm.Network.Error.{NetworkError}
use rustykvm.Network.Netmask.{is_valid_netmask, netmask_to_cidr, cidr_to_netmask}

answers : ℕ → Result NetworkError ℕ → Bool
answers c (ok n) = n == c
answers c (err e) = false

stands_for : ℕ → Bool
unfolding answers netmask_to_cidr cidr_to_netmask is_valid_netmask
stands_for c =
    is_valid_netmask (cidr_to_netmask c) && answers c (netmask_to_cidr (cidr_to_netmask c))

all_stand : all_below stands_for 33 ≡ true
unfolding stands_for
all_stand = refl

answers→ok : (c : ℕ) (r : Result NetworkError ℕ) → answers c r ≡ true → r ≡ ok c
unfolding answers
answers→ok c (ok n) h = ap (λ m. ok m) ((==_iff n c).0 h)
answers→ok c (err e) h = cc

-- The netmask that cidr_to_netmask writes for a prefix length of at most 32 is valid, and
-- netmask_to_cidr reads the length back from it.
pub netmask_to_cidr-cidr_to_netmask :
    (cidr : ℕ)
    → cidr ≤ 32
    → (is_valid_netmask (cidr_to_netmask cidr) ≡ true)
      × (netmask_to_cidr (cidr_to_netmask cidr) ≡ ok cidr)
unfolding stands_for
netmask_to_cidr-cidr_to_netmask cidr h =
    let (v, r) =
      both_true (is_valid_netmask (cidr_to_netmask cidr))
        (answers cidr (netmask_to_cidr (cidr_to_netmask cidr)))
        (all_below→test stands_for 33 cidr all_stand (omega arith)) in
    (v, answers→ok cidr (netmask_to_cidr (cidr_to_netmask cidr)) r)

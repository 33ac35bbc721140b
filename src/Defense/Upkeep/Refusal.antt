-- ===== src/Defense/Upkeep/Refusal.antt =====
-- The requests that `manual_block` refuses.
use bagel.Prelude.{ℕ, String, ◌≡◌, refl, inl, inr, Bool, true, false, Option, List, Bool-cases}
use bagel.Store.Result.{Result, Result-cases, ok, err}
use bagel.Store.Rows.{Services}
use bagel.Network.{Networks, IsPrefixed}
use bagel.Firewall.{Membership}
use bagel.Defense.Guard.{Settings, is_protected}
use bagel.Defense.Reconcile.{World}
use bagel.Defense.Reconcile.Spares.{is_sheltered, guards}
use bagel.Defense.Upkeep.{is_zero, block_network, manual_block}

abbrev pub is_err {ℓ} : {A : Type ℓ} → Result A → Bool
is_err (ok a) = false
is_err (err e) = true

module _ {Ip Network : Type 0} (v : Services Network) (nets : Networks Ip Network)
    (law : IsPrefixed nets) (parse_port : String → Option ℕ)
    (nft : List (Membership Network) → Bool) (s : Settings Network) (locals : List Ip) where
  block_network-refused :
      (n : Network) (a : Ip) (now : ℕ) (duration_secs : Option ℕ) (w : World Network)
      → is_sheltered nets s locals a ≡ true
      → nets.contains n a ≡ true
      → (is_err (block_network v nets parse_port nft s (ok locals) n now duration_secs w).0 ≡ true)
        × ((block_network v nets parse_port nft s (ok locals) n now duration_secs w).1 ≡ w)
  unfolding block_network
  block_network-refused n a now duration_secs w h k =
      elim (Result-cases (is_protected nets s (ok locals) n)) [
        | inr (x, e) ↦ rw (e, block_network) (refl, refl)
        | inl (true, e) ↦ rw (e, block_network) (refl, refl)
        | inl (false, e) ↦
            rw (e, block_network, guards nets law parse_port s locals n a h k false e) (refl, refl)
      ]

  -- For networks that are prefixes and where the machine's addresses can be read, a manual block
  -- of a network that holds a protected address, one that is not to be blocked or one of the
  -- machine's own is refused with an error, and changes nothing.
  pub manual_block-refused :
      (n : Network) (a : Ip) (now : ℕ) (duration_secs : Option ℕ) (w : World Network)
      → is_sheltered nets s locals a ≡ true
      → nets.contains n a ≡ true
      → (is_err (manual_block v nets parse_port nft s (ok locals) (ok n) now duration_secs w).0
          ≡ true)
        × ((manual_block v nets parse_port nft s (ok locals) (ok n) now duration_secs w).1 ≡ w)
  unfolding manual_block
  manual_block-refused n a now duration_secs w h k = elim (Bool-cases (is_zero duration_secs)) [
    | inl z ↦ rw z (refl, refl)
    | inr z ↦ rw z (block_network-refused n a now duration_secs w h k)
  ]

-- ===== src/RealIp.antt =====
-- crates/bagel-proto/src/realip.rs. `covers` is `IpNetwork::contains`,
-- `parse_entry` trims an entry and parses it as an address.
pub mod Hops
use bagel.Prelude.{
  String, Bool, false, not, Option, none, some, List, [], ◌∷◌, ◌++◌, ◌==◌, if◌then◌else◌, any,
}
use Prim.Native.Char.{Char, code}
use Prim.Native.String.{[] as empty, ◌∷◌ as ◌▹◌}

-- `split(',')`
unfoldable pub split_commas : String → List String
split_commas empty = empty ∷ []
split_commas (c ▹ s) =
    let rest = split_commas s in if code c == 44 then empty ∷ rest else on_first c rest
  where
    on_first : Char → List String → List String
    on_first c [] = (c ▹ empty) ∷ []
    on_first c (s ∷ ss) = (c ▹ s) ∷ ss

unfoldable pub reverse {ℓ} : {A : Type ℓ} → List A → List A
reverse [] = []
reverse (x ∷ xs) = reverse xs ++ (x ∷ [])

pub record ClientIpPolicy {ℓ} (IpNetwork : Type ℓ) : Type ℓ where
  pub header : Option String
  pub trusted : Option (List IpNetwork)

module _ {ℓ κ} {Ip : Type ℓ} {IpNetwork : Type κ} (covers : IpNetwork → Ip → Bool) where
  abbrev pub contains : List IpNetwork → Ip → Bool
  contains trusted ip = any (λ network. covers network ip) trusted

module _ {ℓ κ} {Ip : Type ℓ} {IpNetwork : Type κ} (covers : IpNetwork → Ip → Bool)
    (parse_entry : String → Option Ip) where
  -- The loop over the entries, the nearest hop first.
  pub scan : List IpNetwork → Ip → Option Ip → List String → Ip
  scan trusted peer first [] = elim first [ none ↦ peer | some valid ↦ valid ]
  scan trusted peer first (entry ∷ entries) = elim (parse_entry entry) [
    | none ↦ scan trusted peer first entries
    | some ip ↦
        let rest =
          scan trusted peer (some (elim first [ none ↦ ip | some valid ↦ valid ])) entries in
        if not (contains covers trusted ip) then ip else rest
  ]

  pub peel : List IpNetwork → Ip → Option String → Ip
  peel trusted peer none = peer
  peel trusted peer (some header) = scan trusted peer none (reverse (split_commas header))

  pub client_ip : List IpNetwork → Ip → Option String → Ip
  client_ip trusted peer forwarded_for =
      if not (contains covers trusted peer) then peer else peel trusted peer forwarded_for

  unfoldable pub trusts : ClientIpPolicy IpNetwork → Ip → Bool
  trusts policy peer = elim policy.trusted [
    | none ↦ false
    | some trusted ↦ contains covers trusted peer
  ]

  unfoldable pub resolve : ClientIpPolicy IpNetwork → Ip → Option String → Ip
  resolve policy peer header_value = elim policy.header [
    | none ↦ peer
    | some name ↦ elim policy.trusted [
      | none ↦ peer
      | some trusted ↦ client_ip trusted peer header_value
    ]
  ]

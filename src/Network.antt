-- ===== src/Network.antt =====
-- What the runtime asks of `ipnetwork::IpNetwork`, and the function built on it in firewall.rs.
use bagel.Prelude.{◌≡◌, refl, Bool, true, false, not, ◌||◌, if◌then◌else◌}

pub record Networks (Ip Network : Type 0) : Type 0 where
  pub is_ipv4 : Network → Bool
  pub ip : Network → Ip
  pub contains : Network → Ip → Bool
  -- the derived equality
  pub same : Network → Network → Bool
  -- `host_network`: the network of one address
  pub host : Ip → Network

-- Networks are prefixes: two that share an address have one family, and the wider one holds every
-- address of the other, the one it is written with included.
pub record IsPrefixed {Ip Network : Type 0} (nets : Networks Ip Network) : Type 0 where
  pub family :
      (m n : Network) (a : Ip)
      → nets.contains m a ≡ true
      → nets.contains n a ≡ true
      → nets.is_ipv4 m ≡ nets.is_ipv4 n
  pub nested :
      (m n : Network) (a : Ip)
      → nets.contains m a ≡ true
      → nets.contains n a ≡ true
      → (nets.contains m (nets.ip n) || nets.contains n (nets.ip m)) ≡ true
  pub host_contains : (a : Ip) → nets.contains (nets.host a) a ≡ true

abbrev pub bool_eq : Bool → Bool → Bool
bool_eq true b = b
bool_eq false b = not b

module _ {Ip Network : Type 0} (nets : Networks Ip Network) where
  unfoldable pub networks_overlap : Network → Network → Bool
  networks_overlap left right =
      if not (bool_eq (nets.is_ipv4 left) (nets.is_ipv4 right))
      then false
      else (nets.contains left (nets.ip right) || nets.contains right (nets.ip left))

  -- Two networks that share an address overlap.
  pub networks_overlap_lem :
      IsPrefixed nets
      → (m n : Network) (a : Ip) → nets.contains m a ≡ true
      → nets.contains n a ≡ true
      → networks_overlap m n ≡ true
  unfolding networks_overlap
  networks_overlap_lem law m n a h k =
      rw (law.family m n a h k, bool_eq_self (nets.is_ipv4 n)) (law.nested m n a h k)
    where
      bool_eq_self : (b : Bool) → bool_eq b b ≡ true
      bool_eq_self true = refl
      bool_eq_self false = refl

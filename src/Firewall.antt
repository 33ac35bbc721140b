-- ===== src/Firewall.antt =====
-- crates/bagel-runtime/src/firewall.rs: the scopes of firewall rules and the memberships that one
-- reconciliation sets. An `std::io::Error` is an `Error` by its cause.
pub mod Ports
pub mod Packets
pub mod Normal
pub mod Agree
pub mod Laws
use bagel.Prelude.{
  ℕ, Bool, true, false, not, ◌&&◌, ◌||◌, Option, none, some, List, [], ◌∷◌, ◌++◌, map, leb, ◌==◌,
  if◌then◌else◌, is_none, keep, any,
}
use bagel.Store.Result.{Result, ok, err, ◌>>=◌, ports_missing, redirect_protocol, redirect_conflict}
use bagel.Network.{Networks, networks_overlap}

pub data Protocol : Type 0 where
  tcp udp : Protocol

pub data Verdict : Type 0 where
  drop reject : Verdict
  redirect : ℕ → Verdict

pub record Scope : Type 0 where
  pub protocol : Option Protocol
  pub ports : List ℕ
  pub verdict : Verdict

pub record Membership (Network : Type 0) : Type 0 where
  pub network : Network
  pub scope : Scope

unfoldable pub all_ports : Verdict → Scope
all_ports verdict = record { protocol = none; ports = []; verdict = verdict }

unfoldable pub protocol_scope : Protocol → Verdict → Scope
protocol_scope protocol verdict = record { protocol = some protocol; ports = []; verdict = verdict }

-- `sort_unstable`: on numbers, any sort gives this list.
pub insert_sorted : ℕ → List ℕ → List ℕ
insert_sorted p [] = p ∷ []
insert_sorted p (q ∷ qs) = if leb p q then p ∷ q ∷ qs else q ∷ insert_sorted p qs

pub sort : List ℕ → List ℕ
sort [] = []
sort (p ∷ ps) = insert_sorted p (sort ps)

-- `dedup`: of equal neighbours the first stays.
pub dedup_after : ℕ → List ℕ → List ℕ
dedup_after p [] = []
dedup_after p (q ∷ qs) = if p == q then dedup_after p qs else q ∷ dedup_after q qs

pub dedup : List ℕ → List ℕ
dedup [] = []
dedup (p ∷ ps) = p ∷ dedup_after p ps

abbrev pub is_empty : List ℕ → Bool
is_empty [] = true
is_empty (p ∷ ps) = false

abbrev pub is_redirect : Verdict → Bool
is_redirect (redirect port) = true
is_redirect _ = false

abbrev pub same_protocol : Protocol → Protocol → Bool
same_protocol tcp tcp = true
same_protocol udp udp = true
same_protocol _ _ = false

pub new_scope : Protocol → List ℕ → Verdict → Result Scope
new_scope protocol ports verdict =
    let sorted = dedup (sort ports) in
    if is_empty sorted
    then err ports_missing
    else if is_redirect verdict && not (same_protocol protocol tcp)
    then err redirect_protocol
    else ok (record { protocol = some protocol; ports = sorted; verdict = verdict })

-- left.protocol.is_none() || right.protocol.is_none() || left.protocol == right.protocol
unfoldable pub protocols_overlap : Scope → Scope → Bool
protocols_overlap left right = elim left.protocol [
  | none ↦ true
  | some p ↦ elim right.protocol [ none ↦ true | some q ↦ same_protocol p q ]
]

abbrev pub elem : ℕ → List ℕ → Bool
elem port ports = any (λ q. q == port) ports

-- The ports that the blocks of a redirect's network and protocol leave to it.
unfoldable pub remaining : List Scope → List ℕ → List ℕ
remaining [] ports = ports
remaining (b ∷ bs) ports =
    let rest = remaining bs (keep (λ port. not (elem port b.ports)) ports) in
    if is_none b.protocol || is_empty b.ports then [] else rest

module _ {Ip Network : Type 0} (nets : Networks Ip Network) where
  abbrev pub is_block : Membership Network → Bool
  is_block m = not (is_redirect m.scope.verdict)

  -- The filter of the blockers of a redirect.
  abbrev pub is_blocker : Membership Network → Membership Network → Bool
  is_blocker m b =
      is_block b && networks_overlap nets b.network m.network && protocols_overlap b.scope m.scope

  unfoldable pub open_ports : List (Membership Network) → Membership Network → List ℕ
  open_ports all m = remaining (map (λ b. b.scope) (keep (is_blocker m) all)) m.scope.ports

  -- Another redirect to another port, of a network, protocol and port that overlap.
  unfoldable pub is_conflict : ℕ → Membership Network → List ℕ → Membership Network → Bool
  is_conflict target m ports other = elim other.scope.verdict [
    | redirect other_target ↦
        not (target == other_target)
        && networks_overlap nets other.network m.network
        && protocols_overlap other.scope m.scope
        && any (λ port. elem port other.scope.ports) ports
    | _ ↦ false
  ]

  unfoldable pub with_ports : List ℕ → Membership Network → Membership Network
  with_ports ports m = record {
    network = m.network;
    scope = record { protocol = m.scope.protocol; ports = ports; verdict = m.scope.verdict };
  }

  -- The loop over the redirects of `rest`, the memberships of `all` that are still to come.
  unfoldable pub redirects :
      List (Membership Network) → List (Membership Network) → Result (List (Membership Network))
  redirects all [] = ok []
  redirects all (m ∷ rest) =
      let later = redirects all rest in
      let ports = open_ports all m in
      elim m.scope.verdict [
        | redirect target ↦
            if is_empty ports
            then later
            else if any (is_conflict target m ports) rest
            then err redirect_conflict
            else do ms ← later; ok (with_ports ports m ∷ ms)
        | _ ↦ later
      ]

  unfoldable pub normalize_memberships :
      List (Membership Network) → Result (List (Membership Network))
  normalize_memberships memberships = do
    adjusted ← redirects memberships memberships
    ok (keep is_block memberships ++ adjusted)

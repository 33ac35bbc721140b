-- ===== src/Firewall/Packets.antt =====
-- What the normalized memberships do to a packet. A rule matches the packets of its network, its
-- protocol, if it names one, and its ports, if it names any.
use bagel.Prelude.{
  ℕ, ◌≡◌, refl, sym, ap, ◌∙◌, inl, inr, Bool, true, false, not, ◌&&◌, ◌||◌, none, some, List, [],
  ◌∷◌, map, arith, ◌==◌, Bool-cases, is_some, is_none, Option-cases, ==→≡, keep, any, any-keep,
}
use bagel.Network.{Networks}
use bagel.Firewall.{
  Protocol, redirect, Scope, Membership, is_redirect, same_protocol, elem, is_empty, remaining,
  is_block, is_blocker, open_ports, with_ports,
}

pub record Packet (Ip : Type 0) : Type 0 where
  pub source : Ip
  pub protocol : Protocol
  pub port : ℕ

abbrev pub scope_matches : Scope → Protocol → ℕ → Bool
scope_matches scope protocol port = elim scope.protocol [
  | none ↦ true
  | some q ↦ same_protocol q protocol && (is_empty scope.ports || elem port scope.ports)
]

-- A block that overlaps a redirect takes this port from it.
abbrev pub takes : ℕ → Scope → Bool
takes port b = (is_none b.protocol || is_empty b.ports) || elem port b.ports

any-map {ℓ κ} :
    {A : Type ℓ} {B : Type κ} (p : B → Bool) (f : A → B) (xs : List A)
    → any p (map f xs) ≡ any (λ x. p (f x)) xs
any-map p f [] = refl
any-map p f (x ∷ xs) = ap (λ b. p (f x) || b) (any-map p f xs)

pub and_false : (a : Bool) → (a && false) ≡ false
and_false a = ground arith

elem-keep :
    (f : ℕ → Bool) (port : ℕ) (ports : List ℕ)
    → elem port (keep f ports) ≡ (elem port ports && f port)
elem-keep f port [] = refl
elem-keep f port (q ∷ qs) = elim (Bool-cases (q == port)) [
  | inl e ↦
      let same : f port ≡ f q = ap f (sym (==→≡ q port e)) in
      elim (Bool-cases (f q)) [
        | inl k ↦ rw (same, k, e) refl
        | inr k ↦ rw (same, k, e) (elem-keep f port qs ∙ rw (same, k) (and_false (elem port qs)))
      ]
  | inr e ↦ elim (Bool-cases (f q)) [
    | inl k ↦ rw (k, e) (elem-keep f port qs)
    | inr k ↦ rw (k, e) (elem-keep f port qs)
  ]
]

elem-remaining :
    (port : ℕ) (bs : List Scope) (ports : List ℕ)
    → elem port (remaining bs ports) ≡ (elem port ports && not (any (takes port) bs))
unfolding remaining
elem-remaining port [] ports = and_true (elem port ports)
  where
    and_true : (a : Bool) → a ≡ (a && true)
    and_true a = ground arith
elem-remaining port (b ∷ bs) ports = elim (Bool-cases (is_none b.protocol || is_empty b.ports)) [
  | inl e ↦ rw e (sym (and_false (elem port ports)))
  | inr e ↦
      rw
        (
          e,
          elem-remaining port bs (keep (λ q. not (elem q b.ports)) ports),
          elem-keep (λ q. not (elem q b.ports)) port ports,
        )
        (regroup (elem port ports) (elem port b.ports) (any (takes port) bs))
]
  where
    regroup : (a b c : Bool) → ((a && not b) && not c) ≡ (a && not (b || c))
    regroup a b c = ground arith

module _ {Ip Network : Type 0} (nets : Networks Ip Network) where
  abbrev pub matches : Membership Network → Packet Ip → Bool
  matches m p = nets.contains m.network p.source && scope_matches m.scope p.protocol p.port

  abbrev pub is_redirect_to : ℕ → Membership Network → Bool
  is_redirect_to target m = elim m.scope.verdict [ redirect t ↦ t == target | _ ↦ false ]

  -- Some redirect sends the packet to the port `target`.
  unfoldable pub redirected : ℕ → Packet Ip → List (Membership Network) → Bool
  redirected target p ms = any (λ m. is_redirect_to target m && matches m p) ms

  -- Some rule drops or rejects the packet.
  unfoldable pub blocked : Packet Ip → List (Membership Network) → Bool
  blocked p ms = any (λ m. is_block nets m && matches m p) ms

  -- A block of an overlapping network and protocol holds the port.
  unfoldable pub is_shadowed : List (Membership Network) → Membership Network → ℕ → Bool
  is_shadowed all m port = any (λ b. is_blocker nets m b && takes port b.scope) all

  -- A redirect names its protocol and some port.
  abbrev pub is_pinned : Membership Network → Bool
  is_pinned m =
      not (is_redirect m.scope.verdict)
      || (is_some m.scope.protocol && not (is_empty m.scope.ports))

  pub elem-open_ports :
      (all : List (Membership Network)) (m : Membership Network) (port : ℕ)
      → elem port (open_ports nets all m)
        ≡ (elem port m.scope.ports && not (is_shadowed all m port))
  unfolding open_ports is_shadowed
  elem-open_ports all m port =
      elem-remaining port (map (λ b. b.scope) (keep (is_blocker nets m) all)) m.scope.ports
      ∙ ap (λ b. elem port m.scope.ports && not b)
          (any-map (takes port) (λ b. b.scope) (keep (is_blocker nets m) all)
            ∙ any-keep (λ b. takes port b.scope) (is_blocker nets m) all)

  -- Nothing is redirected at a port that no rule names.
  pub matches-with_ports :
      (m : Membership Network) (ports : List ℕ) (p : Packet Ip)
      → is_some m.scope.protocol ≡ true
      → is_empty m.scope.ports ≡ false
      → is_empty ports ≡ false
      → (left : Bool) → elem p.port ports ≡ (elem p.port m.scope.ports && left)
      → matches (with_ports nets ports m) p ≡ (matches m p && left)
  unfolding with_ports
  matches-with_ports m ports p s e f left h = elim (Option-cases m.scope.protocol) [
    | inl n ↦ absurd (cc (rw n at s))
    | inr (q, n) ↦
        rw (n, e, f, h)
          (regroup (nets.contains m.network p.source) (same_protocol q p.protocol)
            (elem p.port m.scope.ports) left)
  ]
    where
      regroup :
          (a b c d : Bool) → (a && (b && (false || (c && d)))) ≡ ((a && (b && (false || c))) && d)
      regroup a b c d = ground arith

-- ===== src/Firewall/Normal.antt =====
-- What `normalize_memberships` does to a packet.
use bagel.Prelude.{
  ℕ, ◌≡◌, refl, sym, ap, ◌∙◌, ◌≢◌, ◌⊎◌, inl, inr, Bool, true, false, not, ◌&&◌, ◌||◌, some, List,
  [], ◌∷◌, arith, ◌==◌, Bool-cases, is_some, Option-cases, ==→≡, ≢→==, &&-true, not-true,
  ||-true_right, any, All,
}
use bagel.Store.Result.{Ensures, Ensures-ok, Ensures-err, Ensures-bind, Ensures-if}
use bagel.Network.{Networks, IsPrefixed, networks_overlap_lem}
use bagel.Firewall.{
  Protocol, Verdict, drop, reject, redirect, Scope, Membership, same_protocol, protocols_overlap,
  elem, is_empty, open_ports, is_conflict, with_ports, redirects,
}
use bagel.Firewall.Packets.{
  Packet, scope_matches, matches, is_redirect_to, redirected, is_shadowed, is_pinned,
  elem-open_ports, matches-with_ports,
}

pub Verdict-cases : (v : Verdict) → (v ≡ drop) ⊎ ((v ≡ reject) ⊎ ((t : ℕ) × (v ≡ redirect t)))
Verdict-cases drop = inl refl
Verdict-cases reject = inr (inl refl)
Verdict-cases (redirect t) = inr (inr (t, refl))

elem-empty : (port : ℕ) (ports : List ℕ) → is_empty ports ≡ true → elem port ports ≡ false
elem-empty port [] h = refl
elem-empty port (p ∷ ps) h = absurd (cc h)

scope_matches-pinned :
    (s : Scope) (q protocol : Protocol) (port : ℕ)
    → s.protocol ≡ some q
    → is_empty s.ports ≡ false
    → scope_matches s protocol port ≡ (same_protocol q protocol && elem port s.ports)
scope_matches-pinned s q protocol port n e = rw (n, e) refl

module _ {Ip Network : Type 0} (nets : Networks Ip Network) where
  -- The redirect sends the packet to the target, and no overlapping block holds its port.
  abbrev pub sends : ℕ → List (Membership Network) → Packet Ip → Membership Network → Bool
  sends target all p m =
      is_redirect_to nets target m && (matches nets m p && not (is_shadowed nets all m p.port))

  -- A redirect whose ports are all taken sends nothing.
  sends-none :
      (target : ℕ) (all : List (Membership Network)) (p : Packet Ip) (m : Membership Network)
      → is_some m.scope.protocol ≡ true
      → is_empty m.scope.ports ≡ false
      → is_empty (open_ports nets all m) ≡ true
      → sends target all p m ≡ false
  sends-none target all p m s e f =
      let gone =
        sym (elem-open_ports nets all m p.port) ∙ elem-empty p.port (open_ports nets all m) f in
      elim (Option-cases m.scope.protocol) [
        | inl n ↦ absurd (cc (rw n at s))
        | inr (q, n) ↦
            nothing (is_redirect_to nets target m) (nets.contains m.network p.source)
              (scope_matches m.scope p.protocol p.port) (same_protocol q p.protocol)
              (elem p.port m.scope.ports) (is_shadowed nets all m p.port)
              (scope_matches-pinned m.scope q p.protocol p.port n e) gone
      ]
    where
      nothing :
          (a b m c d s : Bool)
          → m ≡ (c && d)
          → (d && not s) ≡ false
          → (a && ((b && m) && not s)) ≡ false
      nothing a b m c d s k h = ground (arith, k, h)

  pub with_ports-target :
      (target : ℕ) (ports : List ℕ) (m : Membership Network)
      → is_redirect_to nets target (with_ports nets ports m) ≡ is_redirect_to nets target m
  unfolding with_ports
  with_ports-target target ports m = refl

  -- What the pinned memberships of a list are redirected to once the blocks are counted in.
  pub redirects-redirected :
      (target : ℕ) (all : List (Membership Network)) (p : Packet Ip)
      (rest : List (Membership Network))
      → All (λ m. is_pinned nets m ≡ true) rest
      → Ensures
          (λ out. redirected nets target p out ≡ any (sends target all p) rest)
          (redirects nets all rest)
  unfolding redirects redirected
  redirects-redirected target all p [] h = Ensures-ok _ refl
  redirects-redirected target all p (m ∷ rest) h = elim (Verdict-cases m.scope.verdict) [
    | inl e ↦ rw e (redirects-redirected target all p rest h.1)
    | inr (inl e) ↦ rw e (redirects-redirected target all p rest h.1)
    | inr (inr (t, e)) ↦
        let (named, filled) =
          &&-true (is_some m.scope.protocol) (not (is_empty m.scope.ports)) (simp e at h.0) in
        let some_port = not-true (is_empty m.scope.ports) filled in
        let later = redirects-redirected target all p rest h.1 in
        simp e (
          Ensures-if (is_empty (open_ports nets all m))
            (λ f. record {
              at = λ ms k.
                  later.at ms k ∙ sym (or_false (sends-none target all p m named some_port f));
            })
            (λ f.
              Ensures-if (any (is_conflict nets t m (open_ports nets all m)) rest)
                (λ _. Ensures-err _)
                (λ _. Ensures-bind λ ms k. Ensures-ok _ (
                  both (with_ports-target target (open_ports nets all m) m)
                    (matches-with_ports nets m (open_ports nets all m) p named some_port f
                      (not (is_shadowed nets all m p.port)) (elem-open_ports nets all m p.port))
                    (later.at ms k)))))
  ]
    where
      or_false : {a b : Bool} → a ≡ false → (a || b) ≡ b
      or_false h = rw h refl

      both : {a b c d e f : Bool} → a ≡ b → c ≡ d → e ≡ f → ((a && c) || e) ≡ ((b && d) || f)
      both h k l = rw (h, k, l) refl

any-common :
    (port : ℕ) (ps qs : List ℕ)
    → elem port ps ≡ true
    → elem port qs ≡ true
    → any (λ q. elem q qs) ps ≡ true
any-common port [] qs h k = absurd (cc h)
any-common port (p ∷ ps) qs h k = elim (Bool-cases (p == port)) [
  | inl e ↦ rw (ap (λ q. elem q qs) (==→≡ p port e), k) refl
  | inr e ↦ ||-true_right (elem p qs) (any-common port ps qs (rw e at h) k)
]

same_protocol_trans :
    (a b c : Protocol)
    → same_protocol a c ≡ true
    → same_protocol b c ≡ true
    → same_protocol a b ≡ true
same_protocol_trans a b c h k = ground (arith, h, k)

pub protocols_overlap_lem :
    (s r : Scope) (protocol : Protocol) (port : ℕ)
    → scope_matches s protocol port ≡ true
    → scope_matches r protocol port ≡ true
    → protocols_overlap s r ≡ true
unfolding protocols_overlap
protocols_overlap_lem s r protocol port h k = elim (Option-cases s.protocol) [
  | inl e ↦ rw e refl
  | inr (a, e) ↦ elim (Option-cases r.protocol) [
    | inl f ↦ rw (e, f) refl
    | inr (b, f) ↦
        rw (e, f)
          (same_protocol_trans a b protocol (&&-true _ _ (rw e at h)).0 (&&-true _ _ (rw f at k)).0)
  ]
]

-- A pinned scope matches only at its ports.
pub scope_matches-port :
    (s : Scope) (protocol : Protocol) (port : ℕ)
    → is_some s.protocol ≡ true
    → is_empty s.ports ≡ false
    → scope_matches s protocol port ≡ true
    → elem port s.ports ≡ true
scope_matches-port s protocol port n e h = elim (Option-cases s.protocol) [
  | inl f ↦ absurd (cc (rw f at n))
  | inr (q, f) ↦
      (&&-true (same_protocol q protocol) (elem port s.ports)
        (sym (scope_matches-pinned s q protocol port f e) ∙ h)).1
]

module _ {Ip Network : Type 0} (nets : Networks Ip Network) (law : IsPrefixed nets) where
  -- Two redirects of a packet to different ports are a conflict.
  pub is_conflict_lem :
      (t u : ℕ) (p : Packet Ip) (m other : Membership Network) (ports : List ℕ)
      → t ≢ u
      → matches nets m p ≡ true
      → elem p.port ports ≡ true
      → is_redirect_to nets u other ≡ true
      → matches nets other p ≡ true
      → is_pinned nets other ≡ true
      → is_conflict nets t m ports other ≡ true
  unfolding is_conflict
  is_conflict_lem t u p m other ports ne hm hp hu ho pin =
      let (m_net, m_scope) = &&-true (nets.contains m.network p.source) _ hm in
      let (o_net, o_scope) = &&-true (nets.contains other.network p.source) _ ho in
      elim (Verdict-cases other.scope.verdict) [
        | inl e ↦ absurd (cc (rw e at hu))
        | inr (inl e) ↦ absurd (cc (rw e at hu))
        | inr (inr (v, e)) ↦
            let (named, filled) =
              &&-true (is_some other.scope.protocol) (not (is_empty other.scope.ports))
                (simp e at pin) in
            let there =
              scope_matches-port other.scope p.protocol p.port named (not-true _ filled) o_scope in
            let target : (t == v) ≡ false =
              ≢→== t v (λ same. ne (omega (arith, same, ==→≡ v u (rw e at hu)))) in
            simp (e, is_conflict)
              (rw
                (
                  target,
                  networks_overlap_lem nets law other.network m.network p.source o_net m_net,
                  protocols_overlap_lem other.scope m.scope p.protocol p.port o_scope m_scope,
                  any-common p.port ports other.scope.ports hp there,
                )
                refl)
      ]

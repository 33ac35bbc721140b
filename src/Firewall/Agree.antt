-- ===== src/Firewall/Agree.antt =====
-- One packet is never redirected to two ports.
use bagel.Prelude.{
  ℕ, ◌≡◌, refl, sym, ◌∙◌, ◌≢◌, inl, inr, Bool, true, false, not, ◌&&◌, List, [], ◌∷◌, arith, ◌==◌,
  Bool-cases, is_some, ==-false→≢, ==→≡, &&-true, not-true, ||-cases, ||-true_right, any, All,
}
use bagel.Store.Result.{ok, Ensures, Ensures-ok, Ensures-err, Ensures-bind, Ensures-if}
use bagel.Network.{Networks, IsPrefixed}
use bagel.Firewall.{
  redirect, Membership, elem, is_empty, open_ports, is_conflict, with_ports, redirects,
}
use bagel.Firewall.Packets.{
  Packet, matches, is_redirect_to, redirected, is_shadowed, is_pinned, elem-open_ports,
  matches-with_ports,
}
use bagel.Firewall.Normal.{
  Verdict-cases, scope_matches-port, is_conflict_lem, redirects-redirected, sends,
}

module _ {Ip Network : Type 0} (nets : Networks Ip Network) (law : IsPrefixed nets) where
  conflict_later :
      (t u : ℕ) (all : List (Membership Network)) (p : Packet Ip) (m : Membership Network)
      (ports : List ℕ) (rest : List (Membership Network))
      → t ≢ u
      → matches nets m p ≡ true
      → elem p.port ports ≡ true
      → All (λ o. is_pinned nets o ≡ true) rest
      → any (sends nets u all p) rest ≡ true
      → any (is_conflict nets t m ports) rest ≡ true
  conflict_later t u all p m ports [] ne hm hp pin h = absurd (cc h)
  conflict_later t u all p m ports (o ∷ rest) ne hm hp pin h =
      elim (||-cases (sends nets u all p o) _ h) [
        | inl here ↦
            let (to_u, more) = &&-true (is_redirect_to nets u o) _ here in
            rw
              (is_conflict_lem nets law t u p m o ports ne hm hp to_u
                (&&-true (matches nets o p) _ more).0 pin.0)
              refl
        | inr later ↦
            ||-true_right (is_conflict nets t m ports o)
              (conflict_later t u all p m ports rest ne hm hp pin.1 later)
      ]

  -- A packet that an adjusted redirect takes is one of the redirect's own, at an open port.
  record Taken (t τ : ℕ) (all : List (Membership Network)) (m : Membership Network) (p : Packet Ip)
      : Type 0 where
    target : τ ≡ t
    own : matches nets m p ≡ true
    at_open : elem p.port (open_ports nets all m) ≡ true

  taken :
      (t τ : ℕ) (all : List (Membership Network)) (m : Membership Network) (p : Packet Ip)
      → m.scope.verdict ≡ redirect τ
      → is_some m.scope.protocol ≡ true
      → is_empty m.scope.ports ≡ false
      → is_empty (open_ports nets all m) ≡ false
      → (is_redirect_to nets t (with_ports nets (open_ports nets all m) m)
          && matches nets (with_ports nets (open_ports nets all m) m) p)
        ≡ true
      → Taken t τ all m p
  unfolding with_ports
  taken t τ all m p e named some_port f h =
      let (to_t, hit) = &&-true (is_redirect_to nets t m) _ h in
      let open_here =
        matches-with_ports nets m (open_ports nets all m) p named some_port f
          (not (is_shadowed nets all m p.port)) (elem-open_ports nets all m p.port) in
      record {
        target = ==→≡ τ t (rw e at to_t);
        own = (&&-true (matches nets m p) _ (sym open_here ∙ hit)).0;
        at_open =
            scope_matches-port (record m.scope { ports = open_ports nets all m }) p.protocol p.port
              named f (&&-true (nets.contains m.network p.source) _ hit).1;
      }

  -- What the head takes, no later redirect sends elsewhere.
  head-later :
      (v w τ : ℕ) (all : List (Membership Network)) (p : Packet Ip) (m : Membership Network)
      (rest : List (Membership Network))
      → All (λ o. is_pinned nets o ≡ true) rest
      → any (is_conflict nets τ m (open_ports nets all m)) rest ≡ false
      → (ms : List (Membership Network)) → redirects nets all rest ≡ ok ms
      → Taken v τ all m p
      → redirected nets w p ms ≡ true
      → v ≡ w
  head-later v w τ all p m rest pin calm ms k head later = elim (Bool-cases (v == w)) [
    | inl e ↦ ==→≡ v w e
    | inr e ↦
        let ne : τ ≢ w = λ same. ==-false→≢ v w e (omega (arith, head.target, same)) in
        let sent = sym ((redirects-redirected nets w all p rest pin).at ms k) ∙ later in
        absurd (
          cc (
            calm,
            conflict_later τ w all p m (open_ports nets all m) rest ne head.own head.at_open pin
                sent,
          ))
  ]

  pub redirects-agree :
      (t u : ℕ) (all : List (Membership Network)) (p : Packet Ip) (rest : List (Membership Network))
      → All (λ m. is_pinned nets m ≡ true) rest
      → Ensures
          (λ out. redirected nets t p out ≡ true → redirected nets u p out ≡ true → t ≡ u)
          (redirects nets all rest)
  unfolding redirects redirected
  redirects-agree t u all p [] h = Ensures-ok _ (λ a b. absurd (cc a))
  redirects-agree t u all p (m ∷ rest) h = elim (Verdict-cases m.scope.verdict) [
    | inl e ↦ rw e (redirects-agree t u all p rest h.1)
    | inr (inl e) ↦ rw e (redirects-agree t u all p rest h.1)
    | inr (inr (τ, e)) ↦
        let (named, filled) =
          &&-true (is_some m.scope.protocol) (not (is_empty m.scope.ports)) (simp e at h.0) in
        let some_port = not-true (is_empty m.scope.ports) filled in
        simp e (
          Ensures-if (is_empty (open_ports nets all m)) (λ f. redirects-agree t u all p rest h.1)
            (λ f.
              Ensures-if (any (is_conflict nets τ m (open_ports nets all m)) rest)
                (λ _. Ensures-err _)
                (λ calm. Ensures-bind λ ms k. Ensures-ok _ (λ a b.
                  let head : (v : ℕ) → adjusted v ≡ true → Taken v τ all m p =
                    λ v. taken v τ all m p e named some_port f in
                  elim (||-cases _ _ a) [
                    | inl at ↦ elim (||-cases _ _ b) [
                      | inl bt ↦ sym (head t at).target ∙ (head u bt).target
                      | inr bl ↦ head-later t u τ all p m rest h.1 calm ms k (head t at) bl
                    ]
                    | inr al ↦ elim (||-cases _ _ b) [
                      | inl bt ↦ sym (head-later u t τ all p m rest h.1 calm ms k (head u bt) al)
                      | inr bl ↦ (redirects-agree t u all p rest h.1).at ms k al bl
                    ]
                  ]))))
  ]
    where
      adjusted : ℕ → Bool
      adjusted v =
          is_redirect_to nets v (with_ports nets (open_ports nets all m) m)
          && matches nets (with_ports nets (open_ports nets all m) m) p

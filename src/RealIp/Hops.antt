-- ===== src/RealIp/Hops.antt =====
-- The address of a client is the nearest hop that no trusted proxy stands for.
use bagel.Prelude.{
  String, ◌≡◌, refl, inl, inr, Bool, not, Option, none, some, List, [], ◌∷◌, if◌then◌else◌,
  Bool-cases, Option-cases, keep,
}
use bagel.RealIp.{contains, scan, client_ip, reverse, split_commas, peel}

module _ {ℓ κ} {Ip : Type ℓ} {IpNetwork : Type κ} (covers : IpNetwork → Ip → Bool)
    (parse_entry : String → Option Ip) where
  -- The entries that are addresses.
  pub hops : List String → List Ip
  hops [] = []
  hops (entry ∷ entries) = elim (parse_entry entry) [
    | none ↦ hops entries
    | some ip ↦ ip ∷ hops entries
  ]

  pub head_or {μ} : {A : Type μ} → A → List A → A
  head_or a [] = a
  head_or a (x ∷ xs) = x

  scan-some :
      (trusted : List IpNetwork) (peer valid : Ip) (es : List String)
      → scan covers parse_entry trusted peer (some valid) es
        ≡ head_or valid (keep (λ ip. not (contains covers trusted ip)) (hops es))
  unfolding scan head_or hops
  scan-some trusted peer valid [] = refl
  scan-some trusted peer valid (entry ∷ es) = elim (Option-cases (parse_entry entry)) [
    | inl e ↦ rw (e, scan, hops) (scan-some trusted peer valid es)
    | inr (ip, e) ↦ elim (Bool-cases (not (contains covers trusted ip))) [
      | inl outside ↦ rw (e, scan, hops, outside) refl
      | inr inside ↦ rw (e, scan, hops, inside) (scan-some trusted peer valid es)
    ]
  ]

  scan-none :
      (trusted : List IpNetwork) (peer : Ip) (es : List String)
      → scan covers parse_entry trusted peer none es
        ≡ head_or (head_or peer (hops es)) (keep (λ ip. not (contains covers trusted ip)) (hops es))
  unfolding scan head_or hops
  scan-none trusted peer [] = refl
  scan-none trusted peer (entry ∷ es) = elim (Option-cases (parse_entry entry)) [
    | inl e ↦ rw (e, scan, hops) (scan-none trusted peer es)
    | inr (ip, e) ↦ elim (Bool-cases (not (contains covers trusted ip))) [
      | inl outside ↦ rw (e, scan, hops, outside) refl
      | inr inside ↦ rw (e, scan, hops, inside) (scan-some trusted peer ip es)
    ]
  ]

  -- Behind a trusted peer, the client's address is the hop of the header closest to the peer
  -- that is not trusted; if all are trusted, the closest hop; if the header holds none, the
  -- peer. An untrusted peer is the client.
  pub client_ip-hops :
      (trusted : List IpNetwork) (peer : Ip) (header : String)
      → let nearest = hops (reverse (split_commas header)) in
        client_ip covers parse_entry trusted peer (some header) ≡ (
          if contains covers trusted peer
          then head_or
              (head_or peer nearest)
              (keep (λ ip. not (contains covers trusted ip)) nearest)
          else peer)
  unfolding client_ip peel
  client_ip-hops trusted peer header = elim (Bool-cases (contains covers trusted peer)) [
    | inl inside ↦ rw inside (scan-none trusted peer (reverse (split_commas header)))
    | inr outside ↦ rw outside refl
  ]

-- ===== src/Tests/Firewall.antt =====
-- crates/bagel-runtime/src/firewall.rs on networks of one address or of all, with addresses as
-- numbers.
use bagel.Prelude.{
  ℕ, ◌≡◌, refl, sym, ◌∙◌, Bool, true, false, ◌||◌, none, some, List, [], ◌∷◌, ◌==◌, ==→≡, ≡→==,
  ||-true_right, any,
}
use bagel.Store.Result.{ok, ◌>>=◌}
use bagel.Network.{Networks, IsPrefixed, networks_overlap}
use bagel.Firewall.{
  tcp, drop, redirect, Membership, normalize_memberships, redirects, open_ports, remaining,
  is_conflict, with_ports, protocols_overlap,
}
use bagel.Firewall.Packets.{Packet, redirected, blocked}
use bagel.Firewall.Normal.{sends}
use bagel.Firewall.Laws.{normalize_memberships-redirected, normalize_memberships-agree}

pub data Net : Type 0 where
  one : ℕ → Net
  everything : Net

abbrev contains : Net → ℕ → Bool
contains (one a) b = a == b
contains everything b = true

abbrev address : Net → ℕ
address (one a) = a
address everything = 0

abbrev same : Net → Net → Bool
same (one a) (one b) = a == b
same everything everything = true
same _ _ = false

abbrev pub nets : Networks ℕ Net
nets = record { is_ipv4 = λ n. true; ip = address; contains = contains; same = same; host = one }

pub nets-IsPrefixed : IsPrefixed nets
nets-IsPrefixed = record {
  family = λ m n a h k. refl;
  nested = nested;
  host_contains = λ a. ≡→== a a refl;
}
  where
    nested :
        (m n : Net) (a : ℕ)
        → contains m a ≡ true
        → contains n a ≡ true
        → (contains m (address n) || contains n (address m)) ≡ true
    nested everything n a h k = refl
    nested (one b) everything a h k = ||-true_right (b == 0) refl
    nested (one b) (one c) a h k = rw (≡→== b c (==→≡ b a h ∙ sym (==→≡ c a k))) refl

-- A redirect of everyone's port 80 and 443, and a block of one address.
abbrev web : Membership Net
web = record {
  network = everything;
  scope = record { protocol = some tcp; ports = 80 ∷ 443 ∷ []; verdict = redirect 9000 };
}

abbrev block : Membership Net
block = record { network = one 5; scope = record { protocol = none; ports = []; verdict = drop } }

abbrev memberships : List (Membership Net)
memberships = web ∷ block ∷ []

abbrev ssh_only : Membership Net
ssh_only = record {
  network = one 7;
  scope = record { protocol = some tcp; ports = 22 ∷ []; verdict = redirect 2222 };
}

-- One redirect beside the other, of other ports.
abbrev both : List (Membership Net)
both = web ∷ ssh_only ∷ []

abbrev packet : Packet ℕ
packet = record { source = 7; protocol = tcp; port = 80 }

both-normalized : normalize_memberships nets both ≡ ok both
unfolding normalize_memberships redirects open_ports remaining is_conflict with_ports
    protocols_overlap networks_overlap ◌>>=◌
both-normalized = refl

both-sent : redirected nets 9000 packet both ≡ true
unfolding redirected
both-sent = refl

-- The block of one address takes the ports from the redirect of all.
memberships-normalized : normalize_memberships nets memberships ≡ ok (block ∷ [])
unfolding normalize_memberships redirects open_ports remaining is_conflict with_ports
    protocols_overlap networks_overlap ◌>>=◌
memberships-normalized = refl

normalize_memberships-redirected_example :
    (blocked nets packet (block ∷ []) ≡ blocked nets packet memberships)
    × (redirected nets 9000 packet (block ∷ [])
        ≡ any (sends nets 9000 memberships packet) memberships)
normalize_memberships-redirected_example =
    normalize_memberships-redirected nets 9000 packet memberships (block ∷ []) (refl, (refl, tt))
      memberships-normalized

abbrev target : ℕ
target = 9000

normalize_memberships-agree_example : target ≡ target
normalize_memberships-agree_example =
    normalize_memberships-agree nets nets-IsPrefixed target target packet both both
      (refl, (refl, tt)) both-normalized both-sent both-sent

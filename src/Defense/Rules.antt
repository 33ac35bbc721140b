-- ===== src/Defense/Rules.antt =====
-- `membership`: the firewall rule of a lease.
use bagel.Prelude.{ℕ, String, Option, none, some, List, [], ◌∷◌, str_eq, if◌then◌else◌}
use bagel.Config.{
  TransportProtocol, Action, tarpit_redirect, BlockVerdict, drops, rejects, BlockTarget,
  block_parts,
}
use bagel.Store.Result.{Result, ok, err, ◌>>=◌, unknown_listener, bad_address}
use bagel.Store.Rows.{Lease}
use bagel.Firewall.{
  Protocol, Verdict, drop, reject, redirect, Scope, Membership, all_ports, protocol_scope,
  new_scope,
}
use bagel.Defense.Guard.{Settings}

unfoldable pub protocol_of : TransportProtocol → Protocol
protocol_of TransportProtocol.tcp = Protocol.tcp
protocol_of TransportProtocol.udp = Protocol.udp

unfoldable pub verdict_of : BlockVerdict → Verdict
verdict_of drops = drop
verdict_of rejects = reject

unfoldable pub target_scope : Verdict → BlockTarget → Result Scope
target_scope verdict BlockTarget.all = ok (all_ports verdict)
target_scope verdict (BlockTarget.protocol p) = ok (protocol_scope (protocol_of p) verdict)
target_scope verdict (BlockTarget.ports p ports) = new_scope (protocol_of p) ports verdict

unfoldable pub find_listener : String → List (String × String) → Result String
find_listener name [] = err unknown_listener
find_listener name ((n, address) ∷ rest) =
    if str_eq n name then ok address else find_listener name rest

-- `parse_port` reads a socket address and gives its port.
module _ {Network : Type 0} (parse_port : String → Option ℕ) where
  unfoldable pub listener_port : Settings Network → String → Result ℕ
  listener_port s name = do
    address ← find_listener name s.listeners
    elim (parse_port address) [ none ↦ err bad_address | some port ↦ ok port ]

  unfoldable pub redirect_scope : Settings Network → Action → Result (Option Scope)
  redirect_scope s (tarpit_redirect p ports listener) = do
    port ← listener_port s listener
    scope ← new_scope (protocol_of p) ports (redirect port)
    ok (some scope)
  redirect_scope s _ = ok none

  unfoldable pub scope_of : Settings Network → Action → Result (Option Scope)
  scope_of s action = elim (block_parts action) [
    | some (verdict, target) ↦ do scope ← target_scope (verdict_of verdict) target; ok (some scope)
    | none ↦ redirect_scope s action
  ]

  unfoldable pub membership : Settings Network → Lease Network → Result (List (Membership Network))
  membership s lease = do
    scope ← scope_of s lease.action
    ok (elim scope [ none ↦ [] | some c ↦ record { network = lease.network; scope = c } ∷ [] ])

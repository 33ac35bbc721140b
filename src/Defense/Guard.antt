-- ===== src/Defense/Guard.antt =====
-- Which networks are never enforced against, and the addresses that the listeners turn away.
use bagel.Prelude.{ℕ, String, Bool, true, ◌&&◌, List, [], ◌∷◌, ◌++◌, if◌then◌else◌, is_some, any}
use bagel.Config.{Action, observe, block_parts}
use bagel.Store.Result.{Result, ok, ◌>>=◌}
use bagel.Network.{Networks, networks_overlap}

-- The part of `Config` that these files read, with the networks parsed.
pub record Settings (Network : Type 0) : Type 0 where
  pub protected : List Network
  pub no_block : List Network
  pub required : Bool
  pub table : String
  -- the names of the listeners and their addresses
  pub listeners : List (String × String)
  pub history_retention_secs : ℕ

module _ {Ip Network : Type 0} (nets : Networks Ip Network) where
  -- `ActiveLeases`, a list of networks.
  unfoldable pub holds : List Network → Ip → Bool
  holds networks ip = any (λ n. nets.contains n ip) networks

  unfoldable pub insert : Network → List Network → List Network
  insert n networks = if any (λ m. nets.same m n) networks then networks else networks ++ (n ∷ [])

  -- `locals` is what `local_addresses` returns.
  unfoldable pub is_protected : Settings Network → Result (List Ip) → Network → Result Bool
  is_protected s locals n =
      if any (λ p. networks_overlap nets p n) s.protected
      then ok true
      else do ips ← locals; ok (any (λ ip. networks_overlap nets (nets.host ip) n) ips)

  unfoldable pub is_no_block_network : Settings Network → Network → Bool
  is_no_block_network s n = any (λ m. networks_overlap nets m n) s.no_block

  unfoldable pub enforcement_action : Settings Network → Network → Action → Action
  enforcement_action s n action =
      if is_no_block_network s n && is_some (block_parts action) then observe else action

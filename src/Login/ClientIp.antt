-- ===== src/Login/ClientIp.antt =====
-- The address that a request is counted under (app/services/login_guard.py).
use beautypos.Prelude.{ℕ, ◌-◌, List, Option, none, some, length, map, where_, not, drop, first}
use beautypos.Text.{Text, strip, split, is_empty, codes}

-- What is read of a request: the peer's host and the header `X-Forwarded-For`.
pub record Request : Type 0 where
  pub peer : Option Text
  pub forwarded : Option Text

abbrev pub trusted_proxy_hops : ℕ
trusted_proxy_hops = 1

abbrev pub unknown : Text
unknown = codes "-"

-- `[part.strip() for part in forwarded.split(",") if part.strip()]`
unfoldable pub hops : Text → List Text
hops forwarded = where_ (λ p. not (is_empty p)) (map strip (split b',' forwarded))

unfoldable pub peer_or_unknown : Option Text → Text
peer_or_unknown none = unknown
peer_or_unknown (some host) = host

-- `hops[index]`, and the peer if there is no hop.
unfoldable pub pick : Text → List Text → Text
pick peer hs = elim (first (drop (length hs - trusted_proxy_hops) hs)) [ none ↦ peer | some h ↦ h ]

unfoldable pub client_ip : Option Request → Text
unfolding pick peer_or_unknown
client_ip none = unknown
client_ip (some r) = elim r.forwarded [
  | none ↦ peer_or_unknown r.peer
  | some f ↦ pick (peer_or_unknown r.peer) (hops f)
]

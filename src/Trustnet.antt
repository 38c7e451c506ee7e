-- ===== src/Trustnet.antt =====
-- internal/trustnet/trustnet.go: which address a request comes from, and whether it is trusted. An
-- address is any type, with `net.ParseIP`, `net.SplitHostPort`, `net.ParseCIDR` and `IsLoopback` as
-- parameters; a network is its `Contains`.
pub mod Spoofing
mod Examples
use Prim.Native.Char.{Char, code}
use Prim.Native.String.{◌++◌ as ◌<>◌}
use mxlrcgo_svc.Common.{
  String, Bool, true, false, not, ◌&&◌, ◌||◌, Option, none, some, ◌⊎◌, inl, inr, List, [], ◌∷◌,
  ◌++◌, ◌==◌, any, str_eq, if◌then◌else◌,
}
use mxlrcgo_svc.Normalize.{trim_space}
use mxlrcgo_svc.Paths.{onto_first}

-- `strings.Split(header, ",")`.
unfoldable pub fields : String → List String
fields String.[] = "" ∷ []
fields (String.◌∷◌ c s) =
    let rest = fields s in if code c == b',' then "" ∷ rest else onto_first c rest

-- `strings.Join(values, ",")`.
unfoldable pub join_values : List String → String
join_values [] = ""
join_values (v ∷ []) = v
join_values (v ∷ w ∷ vs) = v <> "," <> join_values (w ∷ vs)

abbrev pub entry : String → List String
entry p = let e = trim_space p in if str_eq e "" then [] else e ∷ []

-- The entries, the last one first.
unfoldable pub entries : List String → List String
entries [] = []
entries (p ∷ ps) = entries ps ++ entry p

unfoldable pub split_xff : String → List String
unfolding fields entries
split_xff header = if str_eq (trim_space header) "" then [] else entries (fields header)

-- Before the zone of an address.
unfoldable pub before_percent : String → String
before_percent String.[] = ""
before_percent (String.◌∷◌ c s) =
    let rest = before_percent s in if code c == b'%' then "" else String.◌∷◌ c rest

-- `remote_addr`, and the values of `X-Forwarded-For` in the order in which they were received.
pub record Request : Type 0 where
  pub remote_addr : String
  pub forwarded_for : List String

module _ (Ip : Type 0) (parse_ip : String → Option Ip) (split_host_port : String → Option String)
    (is_loopback : Ip → Bool) (parse_cidr : String → Option (Ip → Bool)) where
  abbrev pub or_raw : String → Option String → String
  or_raw s none = s
  or_raw s (some host) = host

  abbrev pub onto_networks : (Ip → Bool) → String ⊎ List (Ip → Bool) → String ⊎ List (Ip → Bool)
  onto_networks n (inl bad) = inl bad
  onto_networks n (inr ns) = inr (n ∷ ns)

  abbrev pub parsed :
      String → Option (Ip → Bool) → String ⊎ List (Ip → Bool) → String ⊎ List (Ip → Bool)
  parsed e none rest = inl e
  parsed e (some n) rest = onto_networks n rest

  -- The networks, or the first entry that is none.
  unfoldable pub parse_cidrs : List String → String ⊎ List (Ip → Bool)
  parse_cidrs [] = inr []
  parse_cidrs (raw ∷ cidrs) =
      let e = trim_space raw in
      let rest = parse_cidrs cidrs in if str_eq e "" then rest else parsed e (parse_cidr e) rest

  abbrev pub ip_in_any : Option Ip → List (Ip → Bool) → Bool
  ip_in_any none nets = false
  ip_in_any (some ip) nets = any (λ n. n ip) nets

  unfoldable pub remote_addr_ip : String → Option Ip
  unfolding before_percent
  remote_addr_ip addr = parse_ip (before_percent (trim_space (or_raw addr (split_host_port addr))))

  abbrev pub usable : List (Ip → Bool) → Option Ip → Option Ip → Option Ip
  usable proxies none rest = rest
  usable proxies (some ip) rest = if ip_in_any (some ip) proxies then rest else some ip

  -- The first entry that is an address and not a proxy's.
  unfoldable pub walk_entries : List (Ip → Bool) → List String → Option Ip
  walk_entries proxies [] = none
  walk_entries proxies (raw ∷ rest) =
      usable proxies (parse_ip (or_raw raw (split_host_port raw))) (walk_entries proxies rest)

  abbrev pub or_peer : Option Ip → Option Ip → Option Ip
  or_peer peer none = peer
  or_peer peer (some ip) = some ip

  unfoldable pub client_ip : List (Ip → Bool) → Request → Option Ip
  client_ip proxies r =
      let peer = remote_addr_ip r.remote_addr in
      if not (ip_in_any peer proxies)
      then peer
      else or_peer peer (walk_entries proxies (split_xff (join_values r.forwarded_for)))

  -- `Contains`.
  abbrev pub contains : List (Ip → Bool) → Option Ip → Bool
  contains nets none = false
  contains nets (some ip) = if is_loopback ip then true else ip_in_any (some ip) nets

  pub record Policy : Type 0 where
    pub allow : List (Ip → Bool)
    pub proxies : List (Ip → Bool)

  abbrev pub policy_of : String ⊎ List (Ip → Bool) → String ⊎ List (Ip → Bool) → String ⊎ Policy
  policy_of (inl bad) proxies = inl bad
  policy_of (inr allow) (inl bad) = inl bad
  policy_of (inr allow) (inr proxies) = inr (record { allow = allow; proxies = proxies })

  unfoldable pub new_policy : List String → List String → String ⊎ Policy
  unfolding parse_cidrs
  new_policy cidrs proxies = policy_of (parse_cidrs cidrs) (parse_cidrs proxies)

  unfoldable pub loopback_only : Policy
  loopback_only = record { allow = []; proxies = [] }

  unfoldable pub from_trusted_proxy : Policy → Request → Bool
  from_trusted_proxy p r = ip_in_any (remote_addr_ip r.remote_addr) p.proxies

  unfoldable pub trusted : Policy → Request → Bool
  trusted p r = contains p.allow (client_ip p.proxies r)

-- ===== src/Trustnet/Examples.antt =====
-- Runs of internal/trustnet/trustnet.go, with addresses that are their texts.
use Prim.Native.String.{◌++◌ as ◌<>◌}
use mxlrcgo_svc.Common.{
  ◌≡◌, refl, String, Bool, false, ◌||◌, Option, none, some, List, [], ◌∷◌, ◌++◌, str_eq,
  if◌then◌else◌,
}
use mxlrcgo_svc.Normalize.{trim_space, trim_left, trim_right}
use mxlrcgo_svc.Trustnet.{
  fields, join_values, entries, split_xff, before_percent, remote_addr_ip, walk_entries, client_ip,
  loopback_only, trusted,
}
use mxlrcgo_svc.Trustnet.Spoofing.{client_ip-unforged}

abbrev parse : String → Option String
parse s = if str_eq s "" || str_eq s "junk" then none else some s

abbrev unsplit : String → Option String
unsplit s = none

abbrev local : String → Bool
local ip = str_eq ip "127.0.0.1"

abbrev single : String → Option (String → Bool)
single s = some (λ ip. str_eq ip s)

abbrev proxy : List (String → Bool)
proxy = (λ ip. str_eq ip "10.0.0.1") ∷ []

-- A header from a peer that is no proxy is not read.
ignored :
    trusted String parse unsplit local single
      (loopback_only String parse unsplit local single)
      (record { remote_addr = "6.6.6.6"; forwarded_for = "127.0.0.1" ∷ [] })
    ≡ false
unfolding trusted loopback_only client_ip remote_addr_ip before_percent trim_space trim_left
    trim_right
ignored = refl

client_ip-unforged_example :
    client_ip String parse unsplit local single proxy (record {
      remote_addr = "10.0.0.1";
      forwarded_for = ("127.0.0.1" ∷ []) ++ ("127.0.0.1" <> "," <> " 7.7.7.7 ") ∷ "junk" ∷ [];
    })
    ≡ some "7.7.7.7"
unfolding remote_addr_ip before_percent trim_space trim_left trim_right walk_entries split_xff
    fields join_values entries
client_ip-unforged_example =
    client_ip-unforged String parse unsplit local single proxy "10.0.0.1" ("127.0.0.1" ∷ [])
      ("junk" ∷ []) "127.0.0.1" " 7.7.7.7 " "7.7.7.7" refl refl refl

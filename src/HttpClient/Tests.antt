-- ===== src/HttpClient/Tests.antt =====
-- Dials against a resolver of fixed answers, and the theorems applied to them.
use go_mongo_boilerplate.Base.{
  ◌≡◌, ◌↔◌, ◌++◌, refl, true, [], ◌∷◌, none, some, All, arith, if◌then◌else◌,
}
use go_mongo_boilerplate.Stdlib.Text.{codes, text_eq}
use go_mongo_boilerplate.Stdlib.Errors.{GoError, is_error}
use go_mongo_boilerplate.Stdlib.Outcome.{Outcome}
use go_mongo_boilerplate.HttpClient.{
  Ip, Network, is_blocked, is_unspecified, is_multicast, in_any, contains, same_prefix, to4,
  v4_in_v6_prefix, any_blocked, dial_ips, dialled, not_connected, dial_unless, dial_allowed,
  dial_host, external_dial, connection_refused,
}
use go_mongo_boilerplate.HttpClient.Ranges.{IsReserved4, is_blocked_iff}
use go_mongo_boilerplate.HttpClient.Dials.{
  IsAllowed, external_dial-IsAllowed, external_dial_connected,
}

abbrev first : Ip
first = 93 ∷ 184 ∷ 216 ∷ 34 ∷ []

abbrev second : Ip
second = 93 ∷ 184 ∷ 216 ∷ 35 ∷ []

-- The first address refuses the connection.
network : Network
unfolding text_eq
network = record {
  split_host_port = λ addr. Outcome.ok (addr, codes "443");
  lookup_ip = λ host. Outcome.ok (first ∷ second ∷ []);
  dial = λ ip port. if text_eq ip first then some (GoError.sentinel connection_refused) else none;
}

is_blocked_iff_example :
    ((is_blocked (127 ∷ 0 ∷ 0 ∷ 1 ∷ []) ≡ true) ↔ IsReserved4 127 0)
    × (is_blocked (v4_in_v6_prefix ++ (127 ∷ 0 ∷ 0 ∷ 1 ∷ [])) ≡ is_blocked (127 ∷ 0 ∷ 0 ∷ 1 ∷ []))
is_blocked_iff_example =
    is_blocked_iff 127 0 0 1 (omega arith) (omega arith) (omega arith) (omega arith)

external_dial-IsAllowed_example :
    All IsAllowed (external_dial network (codes "tcp") (codes "example.org")).1
external_dial-IsAllowed_example =
    external_dial-IsAllowed network (codes "tcp") (codes "example.org")

external_dial_connected_example : IsAllowed second × (network.dial second (codes "443") ≡ none)
unfolding network external_dial dial_host dial_allowed dial_unless dial_ips dialled not_connected
    any_blocked is_blocked is_unspecified is_multicast in_any contains same_prefix to4 text_eq
    is_error
external_dial_connected_example =
    external_dial_connected network (codes "tcp") (codes "example.org") (codes "example.org")
      (codes "443") second refl refl

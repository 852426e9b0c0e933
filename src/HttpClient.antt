-- ===== src/HttpClient.antt =====
-- internal/platform/httpclient/client.go. An address is a `net.IP`: four or sixteen bytes.
use go_mongo_boilerplate.Base.{
  ℕ, zero, suc, ◌+◌, ◌-◌, ◌/◌, ◌^◌, Bool, true, false, ◌&&◌, ◌||◌, List, [], ◌∷◌, ◌++◌, Option,
  none, some, length, take, drop, ltb, leb, ◌==◌, if◌then◌else◌,
}
use go_mongo_boilerplate.Base.Int.{ℤ, pos, negsuc, leb_ℤ}
use go_mongo_boilerplate.Stdlib.Text.{Text, codes, text_eq}
use go_mongo_boilerplate.Stdlib.Errors.{GoError, is_error}
use go_mongo_boilerplate.Stdlib.Outcome.{Outcome}
pub mod Ranges
pub mod Dials
mod Tests

abbrev pub Ip : Type 0
Ip = List ℕ

abbrev zeros : ℕ → Ip
zeros zero = []
zeros (suc n) = 0 ∷ zeros n

abbrev pub v4_in_v6_prefix : Ip
v4_in_v6_prefix = zeros 10 ++ (255 ∷ 255 ∷ [])

-- `To4`: an address of four bytes, or one of sixteen that maps one.
unfoldable pub to4 : Ip → Option Ip
unfolding text_eq
to4 ip =
    if length ip == 4
    then some ip
    else if length ip == 16 && text_eq (take 12 ip) v4_in_v6_prefix
    then some (drop 12 ip)
    else none

abbrev pub to4_or_self : Ip → Option Ip → Ip
to4_or_self ip none = ip
to4_or_self ip (some four) = four

-- Whether the first bits of two addresses are the same; the mask of a byte is a division.
unfoldable pub same_prefix : ℕ → Ip → Ip → Bool
same_prefix bits [] [] = true
same_prefix bits (n ∷ ns) (x ∷ xs) =
    let rest = same_prefix (bits - 8) ns xs in
    if leb 8 bits then (n == x) && rest else n / 2 ^ (8 - bits) == x / 2 ^ (8 - bits) && rest
same_prefix bits _ _ = false

-- An `IPNet`: its address and the number of leading ones of its mask.
pub record IpNet : Type 0 where
  pub ip : Ip
  pub ones : ℕ

-- `IPNet.Contains`.
unfoldable pub contains : IpNet → Ip → Bool
unfolding same_prefix to4
contains n ip = same_prefix n.ones n.ip (to4_or_self ip (to4 ip))

-- What `ParseCIDR` makes of the texts.
abbrev pub blocked_cidrs : List IpNet
blocked_cidrs =
    record { ip = 127 ∷ 0 ∷ 0 ∷ 0 ∷ []; ones = 8 }
    ∷ record { ip = zeros 15 ++ (1 ∷ []); ones = 128 }
    ∷ record { ip = 10 ∷ 0 ∷ 0 ∷ 0 ∷ []; ones = 8 }
    ∷ record { ip = 172 ∷ 16 ∷ 0 ∷ 0 ∷ []; ones = 12 }
    ∷ record { ip = 192 ∷ 168 ∷ 0 ∷ 0 ∷ []; ones = 16 }
    ∷ record { ip = 169 ∷ 254 ∷ 0 ∷ 0 ∷ []; ones = 16 }
    ∷ record { ip = 252 ∷ zeros 15; ones = 7 }
    ∷ record { ip = 254 ∷ 128 ∷ zeros 14; ones = 10 }
    ∷ record { ip = 0 ∷ 0 ∷ 0 ∷ 0 ∷ []; ones = 8 }
    ∷ []

-- `IsUnspecified`: 0.0.0.0, also mapped, or ::.
unfoldable pub is_unspecified : Ip → Bool
unfolding to4 text_eq
is_unspecified ip = text_eq (to4_or_self ip (to4 ip)) (zeros 4) || text_eq ip (zeros 16)

abbrev multicast4 : Ip → Bool
multicast4 [] = false
multicast4 (a ∷ _) = a / 16 == 14

abbrev multicast6 : Ip → Bool
multicast6 [] = false
multicast6 (a ∷ _) = a == 255

abbrev multicast : Ip → Option Ip → Bool
multicast ip (some four) = multicast4 four
multicast ip none = length ip == 16 && multicast6 ip

unfoldable pub is_multicast : Ip → Bool
unfolding to4
is_multicast ip = multicast ip (to4 ip)

unfoldable pub in_any : List IpNet → Ip → Bool
unfolding contains
in_any [] ip = false
in_any (n ∷ nets) ip = contains n ip || in_any nets ip

unfoldable pub is_blocked : Ip → Bool
unfolding is_unspecified is_multicast in_any
is_blocked ip = (is_unspecified ip || is_multicast ip) || in_any blocked_cidrs ip

abbrev pub err_blocked_address : Text
err_blocked_address = codes "httpclient: address blocked by external client policy"

-- `syscall.ECONNREFUSED`.
abbrev pub connection_refused : Text
connection_refused = codes "connection refused"

-- The outside of a dial: `SplitHostPort`, the resolver, and the dialer on an address and a port.
pub record Network : Type 0 where
  pub split_host_port : Text → Outcome (Text × Text)
  pub lookup_ip : Text → Outcome (List Ip)
  pub dial : Ip → Text → Option GoError

unfoldable pub any_blocked : List Ip → Bool
unfolding is_blocked
any_blocked [] = false
any_blocked (ip ∷ ips) = is_blocked ip || any_blocked ips

-- A connection stands for the address that it goes to; beside it, the addresses that were dialled.
unfoldable pub not_connected : Bool → Ip → GoError → Outcome Ip × List Ip → Outcome Ip × List Ip
not_connected true ip e next = (next.0, ip ∷ next.1)
not_connected false ip e next = (Outcome.err e, ip ∷ [])

unfoldable pub dialled : Ip → Option GoError → Outcome Ip × List Ip → Outcome Ip × List Ip
unfolding not_connected is_error
dialled ip none next = (Outcome.ok ip, ip ∷ [])
dialled ip (some e) next = not_connected (is_error e connection_refused) ip e next

unfoldable pub dial_ips : (Ip → Option GoError) → List Ip → Outcome Ip × List Ip
unfolding dialled
dial_ips dial [] = (Outcome.err (GoError.plain (codes "httpclient: all addresses failed")), [])
dial_ips dial (ip ∷ ips) = dialled ip (dial ip) (dial_ips dial ips)

-- The text of a `net.OpError` without addresses.
unfoldable pub blocked_error : Text → GoError
blocked_error network =
    GoError.wrap (codes "dial " ++ (network ++ codes ": ")) (GoError.sentinel err_blocked_address)
      []

unfoldable pub dial_unless : (Ip → Option GoError) → Text → Bool → List Ip → Outcome Ip × List Ip
unfolding dial_ips blocked_error
dial_unless dial network true ips = (Outcome.err (blocked_error network), [])
dial_unless dial network false ips = dial_ips dial ips

unfoldable pub dial_allowed :
    (Ip → Option GoError) → Text → Outcome (List Ip) → Outcome Ip × List Ip
unfolding dial_unless any_blocked
dial_allowed dial network (Outcome.err e) = (Outcome.err e, [])
dial_allowed dial network (Outcome.ok ips) = dial_unless dial network (any_blocked ips) ips

unfoldable pub dial_host : Network → Text → Outcome (Text × Text) → Outcome Ip × List Ip
unfolding dial_allowed
dial_host net network (Outcome.err e) = (Outcome.err e, [])
dial_host net network (Outcome.ok (host, port)) =
    dial_allowed (λ ip. net.dial ip port) network (net.lookup_ip host)

-- The dial function of the external client.
unfoldable pub external_dial : Network → Text → Text → Outcome Ip × List Ip
unfolding dial_host
external_dial net network addr = dial_host net network (net.split_host_port addr)

-- `time.Duration` values are nanoseconds.
unfoldable pub timeout_or : ℤ → ℤ → ℤ
timeout_or d fallback = if leb_ℤ d (pos 0) then fallback else d

unfoldable pub max_or : ℤ → ℤ → ℤ
max_or n fallback = if leb_ℤ n (pos 0) then fallback else n

-- `http.ErrUseLastResponse`.
abbrev pub use_last_response : Text
use_last_response = codes "net/http: use last response"

-- What `CheckRedirect` answers after `via` requests.
unfoldable pub cap_redirects : ℤ → ℕ → Option GoError
cap_redirects max via =
    if leb_ℤ max (pos via) then some (GoError.sentinel use_last_response) else none

pub record HttpClientConfig : Type 0 where
  pub timeout : ℤ
  pub max_idle_conns : ℤ
  pub max_redirects : ℤ

-- The settings of a client that the configuration decides.
pub record Client : Type 0 where
  pub dial_context : Network → Text → Text → Outcome Ip × List Ip
  pub max_idle_conns : ℤ
  pub timeout : ℤ
  pub check_redirect : ℕ → Option GoError

unfoldable pub new_external_client : HttpClientConfig → Client
unfolding external_dial timeout_or max_or cap_redirects
new_external_client cfg = record {
  dial_context = external_dial;
  max_idle_conns = max_or cfg.max_idle_conns (pos 100);
  timeout = timeout_or cfg.timeout (pos 10000000000);
  check_redirect = cap_redirects (max_or cfg.max_redirects (pos 5));
}

-- The internal client dials as the plain dialer does.
unfoldable pub new_internal_client :
    (Network → Text → Text → Outcome Ip × List Ip) → HttpClientConfig → Client
unfolding timeout_or max_or cap_redirects
new_internal_client plain cfg = record {
  dial_context = plain;
  max_idle_conns = max_or cfg.max_idle_conns (pos 100);
  timeout = timeout_or cfg.timeout (pos 10000000000);
  check_redirect = cap_redirects (max_or cfg.max_redirects (pos 5));
}

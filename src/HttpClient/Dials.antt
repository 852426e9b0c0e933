-- ===== src/HttpClient/Dials.antt =====
-- What the external client dials.
use go_mongo_boilerplate.Base.{
  ◌≡◌, refl, sym, ap, ◌∙◌, Bool, true, false, ◌||◌, List, [], ◌∷◌, Option, none, some, All, ◌⊎◌,
  inl, inr, arith,
}
use mathlib.Core.Path.{subst}
use go_mongo_boilerplate.Stdlib.Text.{Text}
use go_mongo_boilerplate.Stdlib.Errors.{GoError, is_error}
use go_mongo_boilerplate.Stdlib.Outcome.{Outcome}
use go_mongo_boilerplate.HttpClient.{
  Ip, Network, is_blocked, any_blocked, not_connected, dialled, dial_ips, dial_unless, dial_allowed,
  dial_host, external_dial, connection_refused,
}

abbrev pub IsAllowed : Ip → Type 0
IsAllowed ip = is_blocked ip ≡ false

any_blocked-IsAllowed : (ips : List Ip) → any_blocked ips ≡ false → All IsAllowed ips
unfolding any_blocked
any_blocked-IsAllowed [] h = tt
any_blocked-IsAllowed (ip ∷ ips) h =
    let r = or_false (is_blocked ip) (any_blocked ips) h in (r.0, any_blocked-IsAllowed ips r.1)
  where
    or_false : (p q : Bool) → (p || q) ≡ false → (p ≡ false) × (q ≡ false)
    or_false p q e = ground arith

module _ (P : Ip → Type 0) where
  not_connected-All :
      (b : Bool) (ip : Ip) (e : GoError) (next : Outcome Ip × List Ip)
      → P ip
      → All P next.1
      → All P (not_connected b ip e next).1
  unfolding not_connected
  not_connected-All true ip e next p h = (p, h)
  not_connected-All false ip e next p h = (p, tt)

  dialled-All :
      (ip : Ip) (o : Option GoError) (next : Outcome Ip × List Ip)
      → P ip
      → All P next.1
      → All P (dialled ip o next).1
  unfolding dialled
  dialled-All ip none next p h = (p, tt)
  dialled-All ip (some e) next p h = not_connected-All (is_error e connection_refused) ip e next p h

  -- Only addresses of the list are dialled.
  dial_ips-All :
      (dial : Ip → Option GoError) (ips : List Ip) → All P ips → All P (dial_ips dial ips).1
  unfolding dial_ips
  dial_ips-All dial [] h = tt
  dial_ips-All dial (ip ∷ ips) h = dialled-All ip (dial ip) _ h.0 (dial_ips-All dial ips h.1)

  not_connected-ok :
      (b : Bool) (i ip : Ip) (e : GoError) (next : Outcome Ip × List Ip)
      → (not_connected b i e next).0 ≡ Outcome.ok ip
      → next.0 ≡ Outcome.ok ip
  unfolding not_connected
  not_connected-ok true i ip e next h = h
  not_connected-ok false i ip e next h = absurd (cc)

  dialled-ok :
      (i ip : Ip) (o : Option GoError) (next : Outcome Ip × List Ip)
      → (dialled i o next).0 ≡ Outcome.ok ip
      → ((i ≡ ip) × (o ≡ none)) ⊎ (next.0 ≡ Outcome.ok ip)
  unfolding dialled
  dialled-ok i ip none next h = inl (cc, refl)
  dialled-ok i ip (some e) next h =
      inr (not_connected-ok (is_error e connection_refused) i ip e next h)

  -- A connection goes to an address of the list that accepted it.
  dial_ips-ok :
      (dial : Ip → Option GoError) (ips : List Ip) (ip : Ip)
      → All P ips
      → (dial_ips dial ips).0 ≡ Outcome.ok ip
      → P ip × (dial ip ≡ none)
  unfolding dial_ips
  dial_ips-ok dial [] ip h e = absurd (cc)
  dial_ips-ok dial (i ∷ ips) ip h e = elim (dialled-ok i ip (dial i) (dial_ips dial ips) e) [
    | inl (same, up) ↦ (subst P same h.0, ap dial (sym same) ∙ up)
    | inr later ↦ dial_ips-ok dial ips ip h.1 later
  ]

module _ (network : Text) (dial : Ip → Option GoError) where
  dial_unless-All :
      (b : Bool) (ips : List Ip)
      → any_blocked ips ≡ b
      → All IsAllowed (dial_unless dial network b ips).1
  unfolding dial_unless
  dial_unless-All true ips h = tt
  dial_unless-All false ips h = dial_ips-All IsAllowed dial ips (any_blocked-IsAllowed ips h)

  dial_allowed-All : (r : Outcome (List Ip)) → All IsAllowed (dial_allowed dial network r).1
  unfolding dial_allowed
  dial_allowed-All (Outcome.err e) = tt
  dial_allowed-All (Outcome.ok ips) = dial_unless-All (any_blocked ips) ips refl

  dial_unless-ok :
      (b : Bool) (ips : List Ip) (ip : Ip)
      → any_blocked ips ≡ b
      → (dial_unless dial network b ips).0 ≡ Outcome.ok ip
      → IsAllowed ip × (dial ip ≡ none)
  unfolding dial_unless
  dial_unless-ok true ips ip h e = absurd (cc)
  dial_unless-ok false ips ip h e =
      dial_ips-ok IsAllowed dial ips ip (any_blocked-IsAllowed ips h) e

  dial_allowed-ok :
      (r : Outcome (List Ip)) (ip : Ip)
      → (dial_allowed dial network r).0 ≡ Outcome.ok ip
      → IsAllowed ip × (dial ip ≡ none)
  unfolding dial_allowed
  dial_allowed-ok (Outcome.err e) ip h = absurd (cc)
  dial_allowed-ok (Outcome.ok ips) ip h = dial_unless-ok (any_blocked ips) ips ip refl h

module _ (net : Network) (network : Text) where
  dial_host-All : (r : Outcome (Text × Text)) → All IsAllowed (dial_host net network r).1
  unfolding dial_host
  dial_host-All (Outcome.err e) = tt
  dial_host-All (Outcome.ok (host, port)) =
      dial_allowed-All network (λ ip. net.dial ip port) (net.lookup_ip host)

  -- Whatever the resolver answers, the external client dials no blocked address.
  pub external_dial-IsAllowed : (addr : Text) → All IsAllowed (external_dial net network addr).1
  unfolding external_dial
  external_dial-IsAllowed addr = dial_host-All (net.split_host_port addr)

  -- A connection of the external client goes to an address that is not blocked and that took the
  -- connection on the port of the request.
  pub external_dial_connected :
      (addr host port : Text) (ip : Ip)
      → net.split_host_port addr ≡ Outcome.ok (host, port)
      → (external_dial net network addr).0 ≡ Outcome.ok ip
      → IsAllowed ip × (net.dial ip port ≡ none)
  unfolding external_dial dial_host
  external_dial_connected addr host port ip split h =
      dial_allowed-ok network (λ i. net.dial i port) (net.lookup_ip host) ip
        (sym (ap (λ r. (dial_host net network r).0) split) ∙ h)

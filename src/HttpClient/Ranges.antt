-- ===== src/HttpClient/Ranges.antt =====
-- The blocked addresses as ranges of numbers.
use go_mongo_boilerplate.Base.{
  ℕ, ◌-◌, ◌/◌, ◌≤◌, ◌<◌, ◌≡◌, ◌≢◌, ◌↔◌, ◌⊎◌, refl, Bool, true, false, ◌&&◌, ◌||◌, [], ◌∷◌, ◌++◌,
  length, ◌==◌, All, arith,
}
use go_mongo_boilerplate.Stdlib.Text.{text_eq}
use go_mongo_boilerplate.HttpClient.{
  Ip, zeros, to4, same_prefix, contains, blocked_cidrs, in_any, is_unspecified, is_multicast,
  is_blocked, v4_in_v6_prefix,
}

same_prefix-zero :
    (ns xs : Ip)
    → length ns ≡ length xs
    → All (λ n. n < 256) ns
    → All (λ x. x < 256) xs
    → same_prefix 0 ns xs ≡ true
unfolding same_prefix
same_prefix-zero [] [] e hn hx = refl
same_prefix-zero (n ∷ ns) [] e hn hx = absurd (omega arith)
same_prefix-zero [] (x ∷ xs) e hn hx = absurd (omega arith)
same_prefix-zero (n ∷ ns) (x ∷ xs) e hn hx =
    rw (same_prefix-zero ns xs (omega arith) hn.1 hx.1) (ground arith)

same_prefix-lengths :
    (bits : ℕ) (ns xs : Ip) → length ns ≢ length xs → same_prefix bits ns xs ≡ false
unfolding same_prefix
same_prefix-lengths bits [] [] e = absurd (e refl)
same_prefix-lengths bits (n ∷ ns) [] e = refl
same_prefix-lengths bits [] (x ∷ xs) e = refl
same_prefix-lengths bits (n ∷ ns) (x ∷ xs) e =
    rw (same_prefix-lengths (bits - 8) ns xs (λ h. e (omega arith))) (ground arith)

or_eq : {p q r s : Bool} → p ≡ r → q ≡ s → (p || q) ≡ (r || s)
or_eq e f = cc

-- The part of a network's address behind its mask is zero.
abbrev IsBytes : Ip → Type 0
IsBytes = All (λ x. x < 256)

-- Loopback, private, link-local, "this network" and multicast addresses, by the first two bytes.
abbrev pub IsReserved4 : ℕ → ℕ → Type 0
IsReserved4 a b =
    (a ≡ 0)
    ⊎ (a ≡ 10)
    ⊎ (a ≡ 127)
    ⊎ ((a ≡ 172) × (16 ≤ b) × (b ≤ 31))
    ⊎ ((a ≡ 192) × (b ≡ 168))
    ⊎ ((a ≡ 169) × (b ≡ 254))
    ⊎ ((224 ≤ a) × (a ≤ 239))

module _ (a b c d : ℕ) (ha : a < 256) (hb : b < 256) (hc : c < 256) (hd : d < 256) where
  prefix-8 : (n : ℕ) → same_prefix 8 (n ∷ 0 ∷ 0 ∷ 0 ∷ []) (a ∷ b ∷ c ∷ d ∷ []) ≡ (n == a)
  unfolding same_prefix
  prefix-8 n = ground arith

  prefix-16 :
      (n m : ℕ) → same_prefix 16 (n ∷ m ∷ 0 ∷ 0 ∷ []) (a ∷ b ∷ c ∷ d ∷ []) ≡ ((n == a) && (m == b))
  unfolding same_prefix
  prefix-16 n m = ground arith

  prefix-12 :
      same_prefix 12 (172 ∷ 16 ∷ 0 ∷ 0 ∷ []) (a ∷ b ∷ c ∷ d ∷ []) ≡ ((172 == a) && (1 == b / 16))
  unfolding same_prefix
  prefix-12 = ground arith

  not_prefix :
      (bits : ℕ) (ns : Ip) → length ns ≢ 4 → same_prefix bits ns (a ∷ b ∷ c ∷ d ∷ []) ≡ false
  not_prefix bits ns h = same_prefix-lengths bits ns (a ∷ b ∷ c ∷ d ∷ []) h

  -- The nine networks in their order.
  abbrev in_networks : Bool
  in_networks =
      (127 == a)
      || (false
          || ((10 == a)
              || (((172 == a) && (1 == b / 16))
                  || (((192 == a) && (168 == b))
                      || (((169 == a) && (254 == b))
                          || (false || (false || ((0 == a) || false))))))))

  in_any-v4 : in_any blocked_cidrs (a ∷ b ∷ c ∷ d ∷ []) ≡ in_networks
  unfolding in_any contains to4
  in_any-v4 = or_eq (prefix-8 127) (
      or_eq (not_prefix 128 (zeros 15 ++ (1 ∷ [])) (λ e. omega arith)) (
        or_eq (prefix-8 10) (
          or_eq prefix-12 (
            or_eq (prefix-16 192 168) (
              or_eq (prefix-16 169 254) (
                or_eq (not_prefix 7 (252 ∷ zeros 15) (λ e. omega arith)) (
                  or_eq (not_prefix 10 (254 ∷ 128 ∷ zeros 14) (λ e. omega arith))
                    (or_eq (prefix-8 0) refl))))))))

  is_unspecified-v4 :
      is_unspecified (a ∷ b ∷ c ∷ d ∷ []) ≡ ((a == 0) && ((b == 0) && ((c == 0) && (d == 0))))
  unfolding is_unspecified to4 text_eq
  is_unspecified-v4 = ground arith

  is_multicast-v4 : is_multicast (a ∷ b ∷ c ∷ d ∷ []) ≡ (a / 16 == 14)
  unfolding is_multicast to4
  is_multicast-v4 = refl

  is_blocked-v4 :
      is_blocked (a ∷ b ∷ c ∷ d ∷ [])
      ≡ ((((a == 0) && ((b == 0) && ((c == 0) && (d == 0)))) || (a / 16 == 14)) || in_networks)
  unfolding is_blocked
  is_blocked-v4 = or_eq (or_eq is_unspecified-v4 is_multicast-v4) in_any-v4

  formula_iff :
      (((((a == 0) && ((b == 0) && ((c == 0) && (d == 0)))) || (a / 16 == 14)) || in_networks)
        ≡ true)
      ↔ IsReserved4 a b
  formula_iff = ground arith

  unspecified-mapped :
      is_unspecified (v4_in_v6_prefix ++ (a ∷ b ∷ c ∷ d ∷ [])) ≡ is_unspecified (a ∷ b ∷ c ∷ d ∷ [])
  unfolding is_unspecified to4 text_eq
  unspecified-mapped = ground arith

  mapped-v4 : is_blocked (v4_in_v6_prefix ++ (a ∷ b ∷ c ∷ d ∷ [])) ≡ is_blocked (a ∷ b ∷ c ∷ d ∷ [])
  unfolding is_blocked is_multicast in_any contains to4 text_eq
  mapped-v4 = or_eq (or_eq unspecified-mapped refl) refl

  -- An IPv4 address, plain or mapped into IPv6, is blocked exactly if its first byte is 0, 10, 127 or
  -- one of 224 to 239, or if it lies in 172.16/12, 192.168/16 or 169.254/16.
  pub is_blocked_iff :
      ((is_blocked (a ∷ b ∷ c ∷ d ∷ []) ≡ true) ↔ IsReserved4 a b)
      × (is_blocked (v4_in_v6_prefix ++ (a ∷ b ∷ c ∷ d ∷ [])) ≡ is_blocked (a ∷ b ∷ c ∷ d ∷ []))
  is_blocked_iff = (rw is_blocked-v4 formula_iff, mapped-v4)

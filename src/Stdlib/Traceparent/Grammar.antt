-- ===== src/Stdlib/Traceparent/Grammar.antt =====
-- Which texts `traceparentRe` matches.
use mathlib.Core.List.{append-nil}
use go_mongo_boilerplate.Base.{
  ℕ, zero, suc, ◌≡◌, refl, ap, ◌∙◌, ◌↔◌, ◌⊎◌, ◌≤◌, true, [], ◌∷◌, ◌++◌, Option, none, some, inl,
  inr, arith, length, All, Bool-cases,
}
use go_mongo_boilerplate.Stdlib.Text.{Text}
use go_mongo_boilerplate.Stdlib.Traceparent.{
  is_hex, hex_run, dash, ◌>>=◌, at_end, traceparent_matches,
}

-- 0 to 9, or a to f.
abbrev pub IsHexDigit : ℕ → Type 0
IsHexDigit c = ((48 ≤ c) × (c ≤ 57)) ⊎ ((97 ≤ c) × (c ≤ 102))

is_hex_iff : (c : ℕ) → (is_hex c ≡ true) ↔ IsHexDigit c
unfolding is_hex
is_hex_iff c = (λ h. ground arith, λ h. ground arith)

-- `n` hexadecimal digits in lower case.
pub record IsHex (n : ℕ) (s : Text) : Type 0 where
  pub count : length s ≡ n
  pub digits : All IsHexDigit s

-- version-traceid-spanid-flags.
pub record IsTraceparent (s : Text) : Type 0 where
  pub version : Text
  pub trace_id : Text
  pub span_id : Text
  pub flags : Text
  pub version_hex : IsHex 2 version
  pub trace_id_hex : IsHex 32 trace_id
  pub span_id_hex : IsHex 16 span_id
  pub flags_hex : IsHex 2 flags
  pub joined : s ≡ version ++ (b'-' ∷ (trace_id ++ (b'-' ∷ (span_id ++ (b'-' ∷ flags)))))

record Split (n : ℕ) (s r : Text) : Type 0 where
  run : Text
  hex : IsHex n run
  joined : s ≡ run ++ r

Split-cons : (n c : ℕ) (s r : Text) → is_hex c ≡ true → Split n s r → Split (suc n) (c ∷ s) r
Split-cons n c s r h p = record {
  run = c ∷ p.run;
  hex = record { count = ap suc p.hex.count; digits = ((is_hex_iff c).0 h, p.hex.digits) };
  joined = ap (◌∷◌ c) p.joined;
}

hex_run-Split : (n : ℕ) (s r : Text) → hex_run n s ≡ some r → Split n s r
unfolding hex_run
hex_run-Split zero s r h = record {
  run = [];
  hex = record { count = refl; digits = tt };
  joined = ground arith;
}
hex_run-Split (suc n) [] r h = cc
hex_run-Split (suc n) (c ∷ s) r h = elim (Bool-cases (is_hex c)) [
  | inl yes' ↦ Split-cons n c s r yes' (hex_run-Split n s r (rw yes' at h))
  | inr no' ↦ absurd (cc (rw no' at h))
]

hex_run-append :
    (n : ℕ) (a r : Text) → length a ≡ n → All IsHexDigit a → hex_run n (a ++ r) ≡ some r
unfolding hex_run
hex_run-append zero [] r e h = refl
hex_run-append zero (c ∷ a) r e h = absurd (omega arith)
hex_run-append (suc n) [] r e h = absurd (omega arith)
hex_run-append (suc n) (c ∷ a) r e h =
    rw ((is_hex_iff c).1 h.0) (hex_run-append n a r (omega arith) h.1)

dash-cons : (s r : Text) → dash s ≡ some r → s ≡ b'-' ∷ r
unfolding dash
dash-cons [] r h = cc
dash-cons (c ∷ s) r h = ground arith

>>=-eq-some :
    (m : Option Text) (f : Text → Option Text) {r : Text}
    → (m >>= f) ≡ some r
    → (a : Text) × (m ≡ some a) × (f a ≡ some r)
>>=-eq-some (some a) f h = (a, refl, h)
>>=-eq-some none f h = cc

at_end-eq-true : (o : Option Text) → at_end o ≡ true → o ≡ some []
at_end-eq-true (some []) h = refl
at_end-eq-true (some (x ∷ xs)) h = cc
at_end-eq-true none h = cc

IsTraceparent-of : (s : Text) → traceparent_matches s ≡ true → IsTraceparent s
unfolding traceparent_matches
IsTraceparent-of s h =
    let (a, ea, h1) = >>=-eq-some (hex_run 2 s) _ (at_end-eq-true _ h) in
    let (b, eb, h2) = >>=-eq-some (dash a) _ h1 in
    let (c, ec, h3) = >>=-eq-some (hex_run 32 b) _ h2 in
    let (d, ed, h4) = >>=-eq-some (dash c) _ h3 in
    let (e, ee, h5) = >>=-eq-some (hex_run 16 d) _ h4 in
    let (f, ef, h6) = >>=-eq-some (dash e) _ h5 in
    let p = hex_run-Split 2 s a ea in
    let q = hex_run-Split 32 b c ec in
    let r = hex_run-Split 16 d e ee in
    let t = hex_run-Split 2 f [] h6 in
    record {
      version = p.run;
      trace_id = q.run;
      span_id = r.run;
      flags = t.run;
      version_hex = p.hex;
      trace_id_hex = q.hex;
      span_id_hex = r.hex;
      flags_hex = t.hex;
      joined =
          p.joined
          ∙ ap (λ x. p.run ++ x)
              (dash-cons a b eb
                ∙ ap (λ x. b'-' ∷ x)
                    (q.joined
                      ∙ ap (λ x. q.run ++ x)
                          (dash-cons c d ed
                            ∙ ap (λ x. b'-' ∷ x)
                                (r.joined
                                  ∙ ap (λ x. r.run ++ x)
                                      (dash-cons e f ef
                                        ∙ ap (λ x. b'-' ∷ x) (t.joined ∙ append-nil t.run))))));
    }

hex : (n : ℕ) (a r : Text) → IsHex n a → hex_run n (a ++ r) ≡ some r
hex n a r h = hex_run-append n a r h.count h.digits

hex_end : (n : ℕ) (a : Text) → IsHex n a → hex_run n a ≡ some []
hex_end n a h = rw (append-nil a) at (hex n a [] h)

matches_of : (s : Text) → IsTraceparent s → traceparent_matches s ≡ true
unfolding traceparent_matches
matches_of s p = rw p.joined (
    rw (
      hex 2 p.version _ p.version_hex,
      hex 32 p.trace_id _ p.trace_id_hex,
      hex 16 p.span_id _ p.span_id_hex,
      hex_end 2 p.flags p.flags_hex,
    ))

-- A text matches exactly if it is a version of 2, a trace id of 32, a span id of 16 and flags of 2
-- digits, each of them 0 to 9 or a to f, joined by dashes.
pub traceparent_matches_iff : (s : Text) → (traceparent_matches s ≡ true) ↔ IsTraceparent s
traceparent_matches_iff s = (IsTraceparent-of s, matches_of s)

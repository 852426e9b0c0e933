-- ===== src/Server/Probe.antt =====
-- The health check of the container against the readiness of the server, over the passes of the
-- registry.
use go_mongo_boilerplate.Base.{
  ℕ, ◌≡◌, ◌≢◌, ◌↔◌, ◌⊎◌, refl, sym, true, arith, is_some, Bool-cases, inl, inr, some, [], ◌∷◌, ◌++◌,
}
use go_mongo_boilerplate.Stdlib.Text.{Text, codes, text_eq}
use go_mongo_boilerplate.Stdlib.Decimal.{atoi}
use go_mongo_boilerplate.Stdlib.Outcome.{Outcome}
use go_mongo_boilerplate.Health.{Registry, ready, readiness}
use go_mongo_boilerplate.Server.{run_healthcheck, healthcheck_port, healthcheck_url, probe_status}

-- The first of PORT and APP_SERVER__PORT that is not empty, and 8002 if both are.
abbrev pub IsChosen : Text → Text → Text → Type 0
IsChosen port server_port p =
    ((port ≢ []) × (p ≡ port))
    ⊎ ((port ≡ []) × (server_port ≢ []) × (p ≡ server_port))
    ⊎ ((port ≡ []) × (server_port ≡ []) × (p ≡ codes "8002"))

-- A request to the port of this host is answered by the routes of the server.
abbrev pub Serves : (Text → Outcome ℕ) → Text → Registry → Type 0
Serves request p r =
    (path : Text) (status : ℕ)
    → probe_status r path ≡ some status
    → request (codes "http://127.0.0.1:" ++ (p ++ path)) ≡ Outcome.ok status

chosen_port :
    (port server_port p : Text)
    → IsChosen port server_port p
    → healthcheck_port port server_port ≡ p
unfolding healthcheck_port
chosen_port [] server_port p (inl (d, e)) = absurd (d refl)
chosen_port [] [] p (inr (inl (h, d, e))) = absurd (d refl)
chosen_port [] [] p (inr (inr (h, k, e))) = sym e
chosen_port [] (x ∷ xs) p (inr (inl (h, d, e))) = sym e
chosen_port [] (x ∷ xs) p (inr (inr (h, k, e))) = absurd (cc k)
chosen_port (x ∷ xs) server_port p (inl (d, e)) = sym e
chosen_port (x ∷ xs) server_port p (inr (inl (h, d, e))) = absurd (cc h)
chosen_port (x ∷ xs) server_port p (inr (inr (h, k, e))) = absurd (cc h)

-- If the server that listens on the port, which is PORT, without it APP_SERVER__PORT and without both
-- 8002, serves its routes for its registry, and the port is a number, the health check exits with 0
-- exactly if the registry is ready.
pub run_healthcheck_iff :
    (request : Text → Outcome ℕ) (port server_port p : Text) (r : Registry)
    → IsChosen port server_port p
    → is_some (atoi p) ≡ true
    → Serves request p r
    → (run_healthcheck request port server_port ≡ 0) ↔ (ready r ≡ true)
unfolding run_healthcheck readiness probe_status healthcheck_url text_eq
run_healthcheck_iff request port server_port p r chosen number serves =
    let answer = serves (codes "/readyz") (readiness r).0 refl in
    elim (Bool-cases (ready r)) [
      | inl up ↦
          rw (chosen_port port server_port p chosen, number, answer, up) ((λ e. refl), (λ e. refl))
      | inr down ↦
          rw (chosen_port port server_port p chosen, number, answer, down)
            ((λ e. absurd (omega arith)), (λ e. absurd (cc)))
    ]

-- ===== src/Transport/Routing/Labels.antt =====
-- The labels of routes in logs and metrics.
use test.Common.{◌≡◌, refl, String, true, List, [], ◌∷◌, ◌==◌, arith, if_cases, any}
use test.Transport.Handler.{single_path_value}
use test.Transport.Routing.{is_fixed, normalized_route}

abbrev pub labels : List String
labels =
    "/health/live" ∷ "/health/ready" ∷ "/metrics" ∷ "/api/register" ∷ "/api/auth" ∷ "/api/docs"
    ∷ "/api/auth/{token}" ∷ "/api/docs/{id}" ∷ "not_found" ∷ []

abbrev IsLabel : String → Type 0
IsLabel label = any (λ l. label == l) labels ≡ true

fixed-IsLabel : (path : String) → is_fixed path ≡ true → IsLabel path
fixed-IsLabel path p = ground (arith, p)

-- Whatever the path is, its normalized route is one of nine fixed texts: the path of a route without
-- a parameter, one of the two patterns in which a placeholder stands for the token or the identifier,
-- or `not_found`.
pub normalized_route-IsLabel : (path : String) → any (λ l. normalized_route path == l) labels ≡ true
unfolding normalized_route
normalized_route-IsLabel path = if_cases IsLabel (is_fixed path) path _ (fixed-IsLabel path) (λ _.
    if_cases IsLabel (single_path_value path "/api/auth/") "/api/auth/{token}" _ (λ _. refl)
      (λ _.
        if_cases IsLabel (single_path_value path "/api/docs/") "/api/docs/{id}" "not_found"
          (λ _. refl) (λ _. refl)))

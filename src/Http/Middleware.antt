-- ===== src/Http/Middleware.antt =====
-- internal/adapters/api/http/middleware.go and health.go: what stands before the handlers, and the
-- health check.
use pub_sub_go.Base.{
  String, not, ◌&&◌, List, [], ◌∷◌, Dict, length, get_or, if◌then◌else◌, ltb, ◌==◌,
}
use pub_sub_go.Base.Int.{ℤ}
use pub_sub_go.Http.Replies.{Reply, written, method_not_allowed}

pub record HealthStatus : Type 0 where
  pub status : String
  pub timestamp : ℤ
  pub version : String
  pub services : Dict String

unfoldable pub overall_status : Dict String → String
overall_status [] = "healthy"
overall_status ((service, status) ∷ services) =
    let rest = overall_status services in if not (status == "healthy") then "degraded" else rest

abbrev pub checked_services : Dict String
checked_services =
    ("publisher", "healthy")
    ∷ ("subscriber", "healthy")
    ∷ ("topic", "healthy")
    ∷ ("acknowledgment", "healthy")
    ∷ []

unfoldable pub health_handler : (verb : String) → ℤ → Reply HealthStatus
unfolding overall_status
health_handler verb now =
    if not (verb == "GET")
    then method_not_allowed
    else written 200 (record {
      status = overall_status checked_services;
      timestamp = now;
      version = "1.0.0";
      services = checked_services;
    })

abbrev pub cors_headers : Dict String
cors_headers =
    ("Access-Control-Allow-Origin", "*")
    ∷ ("Access-Control-Allow-Methods", "GET, POST, PUT, DELETE, OPTIONS")
    ∷ ("Access-Control-Allow-Headers", "Content-Type, Authorization, X-Requested-With")
    ∷ ("Access-Control-Max-Age", "86400")
    ∷ []

-- The headers and the reply. A preflight request does not reach the handler.
unfoldable pub with_cors :
    {R : Type 0} → (verb : String) → (preflight : R) → (next : R) → Dict String × R
with_cors verb preflight next = (cors_headers, if verb == "OPTIONS" then preflight else next)

unfoldable pub with_rate_limit : {R : Type 0} → R → R
with_rate_limit next = next

-- `parts` is `strings.Split(s, ",")`, `trim` is `strings.TrimSpace`, `before_port` what is before the
-- last ":".
unfoldable pub get_client_ip :
    (parts : String → List String) (trim before_port : String → String)
    → (forwarded real_ip remote_addr : String) → String
get_client_ip parts trim before_port forwarded real_ip remote_addr =
    let otherwise = if not (real_ip == "") then real_ip else before_port remote_addr in
    if not (forwarded == "") && ltb 0 (length (parts forwarded))
    then trim (get_or (parts forwarded) 0 "")
    else otherwise

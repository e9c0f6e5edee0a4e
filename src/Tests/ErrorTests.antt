-- ===== src/Tests/ErrorTests.antt =====
-- Errors and their statuses (errors/error.go).
use go_rpc_gateway.Prelude.{ℕ, ◌≡◌, ◌↔◌, refl}
use go_rpc_gateway.Errors.Statuses.{StatusCode}
use go_rpc_gateway.Errors.{AppError, new_error, get_http_status, get_status_code}
use go_rpc_gateway.Errors.Laws.{success_iff}

abbrev limited : AppError
limited = record { code = 4002; message = "Rate limit exceeded"; details = "" }

limited_status :
    (get_http_status limited ≡ 429) × (get_status_code limited ≡ StatusCode.resource_exhausted)
unfolding get_http_status get_status_code
limited_status = (refl, refl)

success_iff_example :
    ((get_http_status limited ≡ 200) ↔ ◌≡◌ {A = ℕ} 4002 0)
    × ((get_status_code limited ≡ StatusCode.ok) ↔ ◌≡◌ {A = ℕ} 4002 0)
success_iff_example = success_iff limited

abbrev wrapped : AppError
wrapped = new_error 9001 "disk full"

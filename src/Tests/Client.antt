-- ===== src/Tests/Client.antt =====
-- The client library at concrete answers of the server.
use kb_backend.Prelude.{ℕ, zero, suc, ◌+◌, ◌-◌, ◌≤◌, ◌≡◌, refl, true, some, none, if◌then◌else◌}
use kb_backend.Sdk.{
  ErrorClass, Formats, Reply, detail_text, Answer, raised, replied, request, code_of,
}
use kb_backend.Sdk.Retries.{doubling, request-bounds}

abbrev formats : Formats
formats = record { join = λ msgs. "several"; http_status = λ status. "HTTP" }

abbrev reply : ℕ → Reply ℕ
reply status = record {
  status = status;
  detail = detail_text "KB_QUOTA_EXCEEDED";
  request_id = none;
  json = some 5;
}

-- the network fails, then the server, then it answers
abbrev flaky : ℕ → Answer ℕ
flaky zero = raised "network: ConnectError"
flaky (suc zero) = replied (reply 503)
flaky (suc (suc n)) = replied (reply 200)

abbrev down : ℕ → Answer ℕ
down n = replied (reply 503)

request-bounds_example :
    let run = request formats flaky 3 true in
    (1 ≤ run.sent)
    × (run.sent ≤ (if true then 3 + 1 else 1))
    × (run.waits ≡ doubling 0 (run.sent - 1))
request-bounds_example = request-bounds formats flaky 3 true

own_code : (reply 413).detail ≡ detail_text (code_of ErrorClass.quota_exceeded)
unfolding code_of
own_code = refl

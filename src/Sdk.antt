-- ===== src/Sdk.antt =====
-- sdk/kb_sdk/errors.py and the request of sdk/kb_sdk/client.py. `B` is the type of JSON bodies; the
-- answers of the server, the joining of texts and their formats are parameters.
pub mod Retries
pub mod Codes
use kb_backend.Prelude.{
  ℕ, zero, suc, ◌+◌, ◌^◌, String, Bool, ◌&&◌, ◌||◌, Option, none, some, List, [], ◌∷◌, ltb, leb,
  ◌==◌, if◌then◌else◌, or_else,
}
use text.Mathlib.Text.{◌==◌ as str_eq}

-- The subclasses of KBError; `plain` is KBError itself.
pub data ErrorClass : Type 0 where
  unauthorized forbidden not_found validation : ErrorClass
  anchor_stale quota_exceeded rate_limited server_error plain : ErrorClass

-- the attribute `code` of each class
unfoldable pub code_of : ErrorClass → String
code_of ErrorClass.unauthorized = "KB_UNAUTHORIZED"
code_of ErrorClass.forbidden = "KB_FORBIDDEN_KB"
code_of ErrorClass.not_found = "KB_NOT_FOUND"
code_of ErrorClass.validation = "KB_VALIDATION"
code_of ErrorClass.anchor_stale = "KB_ANCHOR_STALE"
code_of ErrorClass.quota_exceeded = "KB_QUOTA_EXCEEDED"
code_of ErrorClass.rate_limited = "KB_RATE_LIMITED"
code_of ErrorClass.server_error = "KB_SERVER_ERROR"
code_of ErrorClass.plain = "KB_ERROR"

abbrev pub known_classes : List ErrorClass
known_classes =
    ErrorClass.unauthorized ∷ ErrorClass.forbidden ∷ ErrorClass.not_found ∷ ErrorClass.validation
    ∷ ErrorClass.anchor_stale ∷ ErrorClass.quota_exceeded ∷ ErrorClass.rate_limited
    ∷ ErrorClass.server_error ∷ []

unfoldable pub class_among : List ErrorClass → String → Option ErrorClass
class_among [] detail = none
class_among (c ∷ cs) detail = if str_eq (code_of c) detail then some c else class_among cs detail

-- `_CODE_CLASS.get(detail)`; every key begins with KB_
unfoldable pub class_of_code : String → Option ErrorClass
unfolding class_among
class_of_code detail = class_among known_classes detail

-- `_STATUS_DEFAULTS.get(status)`
unfoldable pub status_default : ℕ → Option ErrorClass
status_default status =
    if status == 401
    then some ErrorClass.unauthorized
    else if status == 403
    then some ErrorClass.forbidden
    else if status == 404
    then some ErrorClass.not_found
    else if status == 422
    then some ErrorClass.validation
    else if status == 429
    then some ErrorClass.rate_limited
    else none

pub record KbError : Type 0 where
  pub class : ErrorClass
  pub message : String
  pub status : ℕ
  pub request_id : Option String
  pub code : String

-- `body["detail"]`: a text, the messages of a list, or anything else
pub data Detail : Type 0 where
  detail_text : String → Detail
  detail_list : List String → Detail
  detail_other : Detail

-- A response; `json` is `none` where `resp.json()` raises.
pub record Reply (B : Type 0) : Type 0 where
  pub status : ℕ
  pub detail : Detail
  pub request_id : Option String
  pub json : Option B

pub record Formats : Type 0 where
  -- `"; ".join(msgs)`
  pub join : List String → String
  -- `f"HTTP {status}"`
  pub http_status : ℕ → String

unfoldable pub detail_string : Formats → Detail → String
detail_string formats (detail_text d) = d
detail_string formats (detail_list msgs) =
    let joined = formats.join msgs in if str_eq joined "" then "validation error" else joined
detail_string formats detail_other = ""

-- `from_response`
unfoldable pub from_response : {B : Type 0} → Formats → Reply B → KbError
unfolding code_of class_of_code status_default detail_string
from_response formats r =
    let detail = detail_string formats r.detail in
    let class = or_else (class_of_code detail) (
      or_else (status_default r.status)
        (if leb 500 r.status then ErrorClass.server_error else ErrorClass.plain)) in
    record {
      class = class;
      message = if str_eq detail "" then formats.http_status r.status else detail;
      status = r.status;
      request_id = r.request_id;
      code = code_of class;
    }

-- What one attempt gives: an exception of the transport with its text, or a response.
pub data Answer (B : Type 0) : Type 0 where
  raised : String → Answer B
  replied : Reply B → Answer B

-- How a request ends: the JSON body, the error of decoding it, or a KBError.
pub data Ending (B : Type 0) : Type 0 where
  returned : B → Ending B
  undecodable : Ending B
  failed : KbError → Ending B

-- The ending, the number of requests sent, and the waits between them: each as its multiple of
-- `backoff_base`, without the random part.
pub record Run (B : Type 0) : Type 0 where
  pub ending : Ending B
  pub sent : ℕ
  pub waits : List ℕ

abbrev pub network_error : String → KbError
network_error text = record {
  class = ErrorClass.plain;
  message = text;
  status = 0;
  request_id = none;
  code = "KB_NETWORK";
}

abbrev pub no_attempt : KbError
no_attempt = record {
  class = ErrorClass.plain;
  message = "request failed";
  status = 0;
  request_id = none;
  code = "KB_ERROR";
}

-- `r.status_code >= 500 or r.status_code == 429`
abbrev pub is_retryable : ℕ → Bool
is_retryable status = leb 500 status || (status == 429)

abbrev pub is_success : ℕ → Bool
is_success status = leb 200 status && ltb status 300

module _ {B : Type 0} (formats : Formats) where
  -- One attempt: its ending, or the error to remember where it is to be retried.
  unfoldable pub attempt : Answer B → Ending B × Option KbError
  attempt (raised text) = (failed (network_error text), some (network_error text))
  attempt (replied r) =
      let err = from_response formats r in
      if is_success r.status
      then ((elim r.json [ none ↦ undecodable | some body ↦ returned body ]), none)
      else (failed err, if is_retryable r.status then some err else none)

module _ {B : Type 0} (formats : Formats) (send : ℕ → Answer B) where
  -- the loop, with `left` attempts to go from attempt `i` on
  unfoldable pub attempts_from : ℕ → ℕ → Option KbError → Run B
  unfolding attempt
  attempts_from zero i last_exc = record {
    ending = failed (or_else last_exc no_attempt);
    sent = 0;
    waits = [];
  }
  attempts_from (suc left) i last_exc =
      let (ending, err) = attempt formats (send i) in
      let rest = attempts_from left (i + 1) err in
      elim err [
        | none ↦ record { ending = ending; sent = 1; waits = [] }
        | some e ↦ record {
          ending = rest.ending;
          sent = rest.sent + 1;
          waits = if ltb 0 left then (2 ^ i) ∷ rest.waits else [];
        }
      ]

  -- `_request`
  unfoldable pub request : ℕ → Bool → Run B
  unfolding attempts_from
  request max_retries idempotent = attempts_from (if idempotent then max_retries + 1 else 1) 0 none

-- ===== src/Sdk/Retries.antt =====
-- How often the client sends a request, and which answer it gives.
use native.Mathlib.Numerals.{add-one}
use kb_backend.Prelude.{
  ℕ, zero, suc, ◌+◌, ◌^◌, ◌≡◌, refl, Bool, true, false, not, none, List, [], ◌∷◌, arith, is_some,
  some, Option, if◌then◌else◌, ◌<◌, ◌≤◌, ltb, ap, sym, ◌-◌, Bool-cases, inl, inr, ◌==◌, ◌∙◌,
}
use kb_backend.Sdk.{
  Formats, KbError, from_response, network_error, Answer, raised, replied, is_retryable, attempt,
  attempts_from, failed, request,
}

-- The answer settles the request: a response other than 429 and 5xx.
abbrev pub is_final : {B : Type 0} → Answer B → Bool
is_final (raised text) = false
is_final (replied r) = not (is_retryable r.status)

-- `n` waits from attempt `i` on, each twice the one before.
abbrev pub doubling : ℕ → ℕ → List ℕ
doubling i zero = []
doubling i (suc n) = (2 ^ i) ∷ doubling (i + 1) n

module _ {B : Type 0} (formats : Formats) where
  attempt-is_final : (a : Answer B) → is_some (attempt formats a).1 ≡ not (is_final a)
  unfolding attempt
  attempt-is_final (raised text) = refl
  attempt-is_final (replied r) = ground arith

  attempt-final : (a : Answer B) → is_final a ≡ true → (attempt formats a).1 ≡ none
  attempt-final a h = ground (arith, attempt-is_final a)

  attempt-retried :
      (a : Answer B)
      → is_final a ≡ false
      → (e : KbError) × ((attempt formats a).1 ≡ some e) × ((attempt formats a).0 ≡ failed e)
  unfolding attempt
  attempt-retried (raised text) h = (network_error text, refl, refl)
  attempt-retried (replied r) h = (from_response formats r, ground arith, ground arith)

module _ {B : Type 0} (formats : Formats) (send : ℕ → Answer B) where
  step-final :
      (left i : ℕ) (last : Option KbError)
      → is_final (send i) ≡ true
      → attempts_from formats send (suc left) i last
        ≡ record { ending = (attempt formats (send i)).0; sent = 1; waits = [] }
  unfolding attempts_from
  step-final left i last h = rw (attempt-final formats (send i) h, attempts_from)

  step-retried :
      (left i : ℕ) (last : Option KbError) (e : KbError)
      → (attempt formats (send i)).1 ≡ some e
      → attempts_from formats send (suc left) i last ≡ (
          let rest = attempts_from formats send left (i + 1) (some e) in
          record {
            ending = rest.ending;
            sent = rest.sent + 1;
            waits = if ltb 0 left then (2 ^ i) ∷ rest.waits else [];
          })
  unfolding attempts_from
  step-retried left i last e h = rw (attempts_from, h, h)

  step-last :
      (i : ℕ) (last : Option KbError)
      → is_final (send i) ≡ false
      → attempts_from formats send 1 i last
        ≡ record { ending = (attempt formats (send i)).0; sent = 1; waits = [] }
  unfolding attempts_from
  step-last i last h =
      let (e, some_e, fails) = attempt-retried formats (send i) h in
      step-retried 0 i last e some_e
      ∙ ap (λ r. record { ending = r; sent = 1; waits = [] }) (sym fails)

  -- The attempts end with the first final answer among them, that of attempt `j`.
  ends_final :
      (left i j : ℕ) (last : Option KbError)
      → i ≤ j
      → j < i + left
      → ((k : ℕ) → i ≤ k → k < j → is_final (send k) ≡ false)
      → is_final (send j) ≡ true
      → let run = attempts_from formats send left i last in
        (run.sent ≡ j + 1 - i) × (run.ending ≡ (attempt formats (send j)).0)
  ends_final zero i j last lo hi h f = absurd (omega arith)
  ends_final (suc left) i j last lo hi h f = elim (Bool-cases (i == j)) [
    | inl e ↦
        let here : j ≡ i = ground arith in
        rw (here, step-final left i last (rw (← here) f)) (omega arith, refl)
    | inr n ↦
        let (e, some_e, _) = attempt-retried formats (send i) (h i (omega arith) (ground arith)) in
        let (sent, ending) =
          ends_final left (i + 1) j (some e) (ground arith) (omega arith)
            (λ k l u. h k (omega arith) u) f in
        rw (step-retried left i last e some_e) (ground (arith, sent), ending)
  ]

  -- With no final answer, all attempts are made, and the error of the last, `j`, is raised.
  ends_exhausted :
      (left i j : ℕ) (last : Option KbError)
      → j ≡ i + left
      → ((k : ℕ) → i ≤ k → k ≤ j → is_final (send k) ≡ false)
      → let run = attempts_from formats send (suc left) i last in
        (run.sent ≡ left + 1) × (run.ending ≡ (attempt formats (send j)).0)
  ends_exhausted zero i j last at h =
      let here : j ≡ i = omega arith in
      rw (here, step-last i last (h i (omega arith) (omega arith))) (omega arith, refl)
  ends_exhausted (suc left) i j last at h =
      let (e, some_e, _) = attempt-retried formats (send i) (h i (omega arith) (omega arith)) in
      let (sent, ending) =
        ends_exhausted left (i + 1) j (some e) (omega arith) (λ k l u. h k (omega arith) u) in
      rw (step-retried (suc left) i last e some_e) (omega (arith, sent), ending)

  -- Whatever the answers: some attempt is made, at most all, and each wait is double the one before.
  waits_between :
      (left i : ℕ) (last : Option KbError)
      → let run = attempts_from formats send (suc left) i last in
        (1 ≤ run.sent) × (run.sent ≤ left + 1) × (run.waits ≡ doubling i (run.sent - 1))
  waits_between zero i last = elim (Bool-cases (is_final (send i))) [
    | inl f ↦ rw (step-final 0 i last f) (omega arith, omega arith, refl)
    | inr n ↦ rw (step-last i last n) (omega arith, omega arith, refl)
  ]
  waits_between (suc left) i last = elim (Bool-cases (is_final (send i))) [
    | inl f ↦ rw (step-final (suc left) i last f) (omega arith, omega arith, refl)
    | inr n ↦
        let (e, some_e, _) = attempt-retried formats (send i) n in
        let rest = attempts_from formats send (suc left) (i + 1) (some e) in
        let (least, most, waits) = waits_between left (i + 1) (some e) in
        let again : rest.sent + 1 - 1 ≡ suc (rest.sent - 1) = omega (arith, least) in
        let left_over : ltb 0 (suc left) ≡ true = ground arith in
        rw (step-retried (suc left) i last e some_e)
          (omega arith, omega (arith, most), rw (left_over, again) (ap (λ r. (2 ^ i) ∷ r) waits))
  ]

  -- Whatever the server answers, a request is sent at least once and at most `max_retries + 1` times,
  -- one that is not idempotent exactly once, and before each further attempt the client waits, each
  -- time twice as long as before but for the random part.
  pub request-bounds :
      (max_retries : ℕ) (idempotent : Bool)
      → let run = request formats send max_retries idempotent in
        (1 ≤ run.sent)
        × (run.sent ≤ (if idempotent then max_retries + 1 else 1))
        × (run.waits ≡ doubling 0 (run.sent - 1))
  unfolding request
  request-bounds max_retries true =
      let (least, most, waits) = waits_between max_retries 0 none in
      rw (add-one max_retries) (least, omega (arith, most), waits)
  request-bounds max_retries false = waits_between 0 0 none

  -- An idempotent request ends with the first answer that is final, attempt `j` if that comes within
  -- the retries, as that answer says, and nothing is sent after it.
  pub request-first_final :
      (max_retries j : ℕ)
      → j ≤ max_retries
      → ((k : ℕ) → k < j → is_final (send k) ≡ false)
      → is_final (send j) ≡ true
      → let run = request formats send max_retries true in
        (run.sent ≡ j + 1) × (run.ending ≡ (attempt formats (send j)).0)
  unfolding request
  request-first_final max_retries j le h f =
      let (sent, ending) =
        ends_final (max_retries + 1) 0 j none (omega arith) (omega arith) (λ k l u. h k u) f in
      (omega (arith, sent), ending)

  -- An idempotent request with no final answer in all its attempts is sent `max_retries + 1` times,
  -- and raises the error of the last.
  pub request-exhausted :
      (max_retries : ℕ)
      → ((k : ℕ) → k ≤ max_retries → is_final (send k) ≡ false)
      → let run = request formats send max_retries true in
        (run.sent ≡ max_retries + 1) × (run.ending ≡ (attempt formats (send max_retries)).0)
  unfolding request
  request-exhausted max_retries h =
      let (sent, ending) =
        ends_exhausted max_retries 0 max_retries none (omega arith) (λ k l u. h k u) in
      rw (add-one max_retries) (omega (arith, sent), ending)

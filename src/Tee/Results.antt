-- ===== src/Tee/Results.antt =====
-- `ActionResult` of go/tools/pkg/fccutils/tee_calls.go, and `waitForActionResult` of
-- go/tools/cmd/aegis/actions.go. The answers of the proxy to each GET are an argument.
use aegis_labs.Common.{
  refl, ◌≢◌, ◌++◌, Bool-cases, ℕ, zero, suc, ◌+◌, ◌<◌, ◌≤◌, ◌≡◌, Bool, true, false, Option, none,
  some, List, [], ◌∷◌, ◌==◌, if◌then◌else◌, ap, sym, ◌∙◌, inl, inr, Outcome, ok, err, panic, arith,
}
use aegis_labs.Common.Bytes.{Bytes}
use aegis_labs.Extension.Actions.{HttpResponse}
use aegis_labs.Payout.Decision.{ActionResponse}

pub data ResultFault : Type 0 where
  request_error : ResultFault
  status_not_ok : ℕ → ResultFault
  decoding_result : ResultFault

abbrev pub repeats : ℕ
repeats = 15

abbrev pub is_answer : Option HttpResponse → Bool
is_answer none = false
is_answer (some r) = r.status == 200

-- The loop: the answer at which it stops, or the last one. `more` rounds may follow the round `i`.
unfoldable pub last_answer : (ℕ → Option HttpResponse) → ℕ → ℕ → Option HttpResponse
last_answer gets zero i = gets i
last_answer gets (suc more) i =
    let later = last_answer gets more (i + 1) in if is_answer (gets i) then gets i else later

decoded_result : Option ActionResponse → Outcome ResultFault ActionResponse
decoded_result none = err decoding_result
decoded_result (some a) = ok a

result_of_answer :
    (Bytes → Option ActionResponse) → Option HttpResponse → Outcome ResultFault ActionResponse
unfolding decoded_result
result_of_answer read none = err request_error
result_of_answer read (some r) =
    if r.status == 200 then decoded_result (read r.body) else err (status_not_ok r.status)

unfoldable pub action_result :
    (Bytes → Option ActionResponse) → (ℕ → Option HttpResponse) → Outcome ResultFault ActionResponse
unfolding result_of_answer last_answer
action_result read gets = result_of_answer read (last_answer gets 14 0)

-- What the proxy answers to the polls before the deadline, and to the first one behind it.
pub record Waits : Type 0 where
  pub before : List (ℕ → Option HttpResponse)
  pub last : ℕ → Option HttpResponse

or_else :
    Outcome ResultFault ActionResponse
    → Outcome ResultFault ActionResponse
    → Outcome ResultFault ActionResponse
or_else (ok a) rest = ok a
or_else (err f) rest = rest
or_else panic rest = panic

polled_result :
    (Bytes → Option ActionResponse)
    → List (ℕ → Option HttpResponse)
    → (ℕ → Option HttpResponse)
    → Outcome ResultFault ActionResponse
unfolding or_else
polled_result read [] last = action_result read last
polled_result read (gets ∷ rest) last =
    or_else (action_result read gets) (polled_result read rest last)

-- Behind the deadline an error is the last error.
unfoldable pub wait_for_action_result :
    (Bytes → Option ActionResponse) → Waits → Outcome ResultFault ActionResponse
unfolding polled_result
wait_for_action_result read w = polled_result read w.before w.last

last_answer_first :
    (gets : ℕ → Option HttpResponse) (more i k : ℕ)
    → ((j : ℕ) → i ≤ j → j < i + k → is_answer (gets j) ≡ false)
    → k ≤ more
    → is_answer (gets (i + k)) ≡ true
    → last_answer gets more i ≡ gets (i + k)
unfolding last_answer
last_answer_first gets zero i zero quiet within answers = ap gets (omega arith)
last_answer_first gets zero i (suc k) quiet within answers = absurd (omega arith)
last_answer_first gets (suc more) i zero quiet within answers =
    let same : i + 0 ≡ i = omega arith in
    let on : is_answer (gets i) ≡ true = ap (λ n. is_answer (gets n)) (sym same) ∙ answers in
    rw on (ap gets (omega arith))
last_answer_first gets (suc more) i (suc k) quiet within answers =
    let off : is_answer (gets i) ≡ false = quiet i (omega arith) (omega arith) in
    let moved : i + 1 + k ≡ i + suc k = omega arith in
    rw off (
      last_answer_first gets more (i + 1) k (λ j above below. quiet j (omega arith) (omega arith))
        (omega arith) (ap (λ n. is_answer (gets n)) moved ∙ answers)
      ∙ ap gets moved)

-- Of the fifteen GETs, the first that answers with status 200 decides: where its body is a response,
-- that response is the result.
pub action_result_first :
    (read : Bytes → Option ActionResponse) (gets : ℕ → Option HttpResponse) (k : ℕ)
    (r : HttpResponse) (a : ActionResponse)
    → k < repeats
    → ((j : ℕ) → j < k → is_answer (gets j) ≡ false)
    → gets k ≡ some r
    → r.status ≡ 200
    → read r.body ≡ some a
    → action_result read gets ≡ ok a
unfolding action_result
action_result_first read gets k r a within quiet answered ok_status body =
    let good : is_answer (gets k) ≡ true = rw answered (ground arith) in
    let chosen : last_answer gets 14 0 ≡ some r =
      last_answer_first gets 14 0 k (λ j above below. quiet j (omega arith)) (omega arith)
        (ap (λ n. is_answer (gets n)) (omega arith) ∙ good)
      ∙ ap gets (omega arith)
      ∙ answered in
    rw chosen (ground (arith, ok_status, ap decoded_result body))

decoded_total : (o : Option ActionResponse) → decoded_result o ≢ panic
unfolding decoded_result
decoded_total none = λ h. cc
decoded_total (some a) = λ h. cc

never_panics :
    (read : Bytes → Option ActionResponse) (o : Option HttpResponse)
    → result_of_answer read o ≢ panic
unfolding result_of_answer
never_panics read none = λ h. cc
never_panics read (some r) = elim (Bool-cases (r.status == 200)) [
  | inl e ↦ rw e (decoded_total (read r.body))
  | inr e ↦ rw e (λ h. cc)
]

total :
    (read : Bytes → Option ActionResponse) (q : ℕ → Option HttpResponse)
    → action_result read q ≢ panic
unfolding action_result
total read q = never_panics read (last_answer q 14 0)

or_else_live :
    (o rest : Outcome ResultFault ActionResponse)
    → o ≢ panic
    → ((b : ActionResponse) × (rest ≡ ok b))
    → (b : ActionResponse) × (or_else o rest ≡ ok b)
unfolding or_else
or_else_live (ok a) rest total later = (a, refl)
or_else_live (err f) rest total later = later
or_else_live panic rest total later = absurd (total refl)

polled_live :
    (read : Bytes → Option ActionResponse) (before rest : List (ℕ → Option HttpResponse))
    (gets last : ℕ → Option HttpResponse) (a : ActionResponse)
    → action_result read gets ≡ ok a
    → (b : ActionResponse) × (polled_result read (before ++ (gets ∷ rest)) last ≡ ok b)
unfolding polled_result or_else
polled_live read [] rest gets last a h = (a, rw h refl)
polled_live read (q ∷ before) rest gets last a h =
    or_else_live (action_result read q) _ (total read q)
      (polled_live read before rest gets last a h)

-- A wait in which one of the polls before the deadline gets a response ends with a response,
-- whatever the other polls gave.
pub wait_for_action_result_live :
    (read : Bytes → Option ActionResponse) (before rest : List (ℕ → Option HttpResponse))
    (gets last : ℕ → Option HttpResponse) (a : ActionResponse)
    → action_result read gets ≡ ok a
    → (b : ActionResponse) × (wait_for_action_result read
          (record { before = before ++ (gets ∷ rest); last = last })
        ≡ ok b)
unfolding wait_for_action_result
wait_for_action_result_live read before rest gets last a h =
    polled_live read before rest gets last a h

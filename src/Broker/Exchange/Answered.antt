-- ===== src/Broker/Exchange/Answered.antt =====
-- Proofs on a request of integrations/mqtt.py whose answer arrives.
use industrial_equipment_mon.Prelude.{
  ◌≡◌, refl, ap, ◌∙◌, inl, inr, String, true, false, Option, none, some, List, [], ◌∷◌, ◌++◌, arith,
  is_none, Bool-cases, Option-cases,
}
use industrial_equipment_mon.Telemetry.Json.{
  Value, null, boolean, integer, decimal, text, array, object, get,
}
use industrial_equipment_mon.Devices.Registration.{strip, is_empty}
use industrial_equipment_mon.Broker.{ok}
use industrial_equipment_mon.Broker.Exchange.{
  content, Callback, connected, connect_failed, subscribed, message, Exchange, opened, on_message,
  on_callback, run_callbacks, request,
}
use industrial_equipment_mon.Broker.Exchange.Matching.{
  Answers, are_safe, one_callback, responses-there,
}

module _ (expected : List String) where
  abbrev HasResult : Exchange → Type 0
  HasResult x = is_none x.result ≡ false

  -- No callback takes a result away.
  message-keeps :
      (o : Option Value) (x : Exchange) → HasResult x → HasResult (on_message expected o x)
  message-keeps none x h = h
  message-keeps (some (object m)) x h = elim (responses-there expected (get "responses" m) x).1 [
    | inl new ↦ new
    | inr same ↦ ap is_none same ∙ h
  ]
  message-keeps (some null) x h = h
  message-keeps (some (boolean b)) x h = h
  message-keeps (some (integer n)) x h = h
  message-keeps (some (decimal d)) x h = h
  message-keeps (some (text t)) x h = h
  message-keeps (some (array xs)) x h = h

  callback-keeps :
      (callback : Callback) (x : Exchange)
      → HasResult x
      → HasResult (on_callback expected callback x)
  callback-keeps (connected true) x h = h
  callback-keeps (connected false) x h = h
  callback-keeps connect_failed x h = h
  callback-keeps (subscribed reasons queued) x h = ground (arith, h)
  callback-keeps (message o) x h = message-keeps o x h

  run-keeps :
      (callbacks : List Callback) (x : Exchange)
      → HasResult x
      → HasResult (run_callbacks expected callbacks x)
  unfolding run_callbacks
  run-keeps [] x h = h
  run-keeps (callback ∷ rest) x h = elim (Bool-cases x.broken) [
    | inl broken ↦ rw broken h
    | inr running ↦
        ap (λ (y : Exchange). is_none y.result) (one_callback expected callback rest x running)
        ∙ run-keeps rest (on_callback expected callback x) (callback-keeps callback x h)
  ]

  -- A safe callback does not end the loop.
  safe-runs :
      (callback : Callback) (x : Exchange)
      → are_safe (callback ∷ []) ≡ true
      → x.broken ≡ false
      → (on_callback expected callback x).broken ≡ false
  safe-runs (connected true) x s h = h
  safe-runs (connected false) x s h = h
  safe-runs connect_failed x s h = h
  safe-runs (subscribed reasons queued) x s h = ground (arith, h)
  safe-runs (message none) x s h = h
  safe-runs (message (some (object m))) x s h =
      (responses-there expected (get "responses" m) x).0 ∙ h
  safe-runs (message (some null)) x s h = absurd (cc)
  safe-runs (message (some (boolean b))) x s h = absurd (cc)
  safe-runs (message (some (integer n))) x s h = absurd (cc)
  safe-runs (message (some (decimal d))) x s h = absurd (cc)
  safe-runs (message (some (text t))) x s h = absurd (cc)
  safe-runs (message (some (array xs))) x s h = absurd (cc)

  answer-there :
      (payload : Value) (responses : List Value) (x : Exchange)
      → Answers expected payload responses
      → HasResult (on_message expected (some payload) x)
  answer-there payload responses x a = rw (a.is_object, a.found, a.tokens) refl

  run-answered :
      (before after : List Callback) (payload : Value) (responses : List Value) (x : Exchange)
      → Answers expected payload responses
      → are_safe before ≡ true
      → x.broken ≡ false
      → HasResult (run_callbacks expected (before ++ message (some payload) ∷ after) x)
  run-answered [] after payload responses x a safe running =
      ap (λ (y : Exchange). is_none y.result)
        (one_callback expected (message (some payload)) after x running)
      ∙ run-keeps after (on_message expected (some payload) x) (answer-there payload responses x a)
  run-answered (callback ∷ before) after payload responses x a safe running =
      ap (λ (y : Exchange). is_none y.result)
        (one_callback expected callback (before ++ message (some payload) ∷ after) x running)
      ∙ run-answered before after payload responses (on_callback expected callback x) a
          (ground (arith, safe)) (safe-runs callback x (ground (arith, safe)) running)

-- A request with a password, over a connection that can be opened: once a message with its tokens
-- arrives, behind any callbacks that are no message of another value than a JSON object and before any
-- others, the request returns responses.
pub answered_request :
    (expected : List String) (admin_password : String) (before after : List Callback)
    (payload : Value) (responses : List Value)
    → is_empty (strip admin_password) ≡ false
    → are_safe before ≡ true
    → Answers expected payload responses
    → (returned : List Value) × (request expected
          (content admin_password)
          true
          (before ++ message (some payload) ∷ after)
        ≡ ok returned)
unfolding request
answered_request expected admin_password before after payload responses there safe a =
    let x = run_callbacks expected (before ++ message (some payload) ∷ after) opened in
    let has = run-answered expected before after payload responses opened a safe refl in
    elim (Option-cases x.result) [
      | inl missing ↦ absurd (cc (rw missing at has))
      | inr (returned, found) ↦ (returned, rw (there, found) refl)
    ]

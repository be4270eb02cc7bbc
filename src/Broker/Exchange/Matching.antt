-- ===== src/Broker/Exchange/Matching.antt =====
-- Proofs on the responses that `_request` of integrations/mqtt.py returns.
use industrial_equipment_mon.Prelude.{
  ap, sym, ◌∙◌, All, str_eq, str_eq_iff, ◌≡◌, refl, sym, ap, ◌∙◌, ◌⊎◌, inl, inr, String, Bool, true,
  false, Option, none, some, List, [], ◌∷◌, arith, is_none, ◌&&◌, Bool-cases, if◌then◌else◌,
}
use mathlib.Core.Path.{subst}
use industrial_equipment_mon.Telemetry.Json.{
  Value, null, boolean, integer, decimal, text, array, object, Items, Members, get, values,
}
use industrial_equipment_mon.Devices.Registration.{strip, is_empty}
use industrial_equipment_mon.Broker.{ok}
use industrial_equipment_mon.Broker.{contains}
use industrial_equipment_mon.Broker.Exchange.{
  FileText, unreadable, undecodable, content, token, add_token, is_expected, all_expected, has_text,
  all_there, Callback, connected, connect_failed, subscribed, message, Exchange, opened, tokens_of,
  same_tokens, on_responses, on_message, on_callback, run_callbacks, request, or_unconfirmed,
  exchange,
}

-- A message with the tokens of the request, and the responses in it.
pub record Answers (expected : List String) (payload : Value) (responses : List Value)
    : Type 0 where
  pub body : Members
  pub items : Items
  pub is_object : payload ≡ object body
  pub found : get "responses" body ≡ some (array items)
  pub tokens : same_tokens expected (tokens_of (values items)) ≡ true
  pub same : values items ≡ responses

-- Such a message is among the callbacks.
pub data Answered (expected : List String) (responses : List Value) : List Callback → Type 0 where
  first :
      (payload : Value) (rest : List Callback)
      → Answers expected payload responses
      → Answered expected responses (message (some payload) ∷ rest)
  later :
      (callback : Callback) (rest : List Callback)
      → Answered expected responses rest
      → Answered expected responses (callback ∷ rest)

if_false : {A : Type 0} (b : Bool) (x y : A) → b ≡ false → (if b then x else y) ≡ y
if_false b x y h = rw h refl

-- While the loop runs, a callback is handled before the rest.
pub one_callback :
    (expected : List String) (callback : Callback) (rest : List Callback) (x : Exchange)
    → x.broken ≡ false
    → run_callbacks expected (callback ∷ rest) x
      ≡ run_callbacks expected rest (on_callback expected callback x)
unfolding run_callbacks
one_callback expected callback rest x h =
    if_false x.broken x (run_callbacks expected rest (on_callback expected callback x)) h

module _ (expected : List String) (responses : List Value) where
  abbrev HasResult : Exchange → Type 0
  HasResult x = x.result ≡ some responses

  -- A result is there before a callback, or it is the callback's.
  responses-result :
      (payload : Value) (m : Members) (o : Option Value) (x : Exchange)
      → payload ≡ object m
      → get "responses" m ≡ o
      → HasResult (on_responses expected o x)
      → HasResult x ⊎ Answers expected payload responses
  responses-result payload m none x p q h = inl h
  responses-result payload m (some (array items)) x p q h =
      elim (Bool-cases (same_tokens expected (tokens_of (values items)))) [
        | inr other ↦ inl (rw other at h)
        | inl mine ↦ inr (record {
          body = m;
          items = items;
          is_object = p;
          found = q;
          tokens = mine;
          same = cc (rw mine at h);
        })
      ]
  responses-result payload m (some null) x p q h = inl h
  responses-result payload m (some (boolean b)) x p q h = inl h
  responses-result payload m (some (integer n)) x p q h = inl h
  responses-result payload m (some (decimal d)) x p q h = inl h
  responses-result payload m (some (text t)) x p q h = inl h
  responses-result payload m (some (object n)) x p q h = inl h

  message-result :
      (payload : Value) (x : Exchange)
      → HasResult (on_message expected (some payload) x)
      → HasResult x ⊎ Answers expected payload responses
  message-result (object m) x h = responses-result (object m) m (get "responses" m) x refl refl h
  message-result null x h = inl h
  message-result (boolean b) x h = inl h
  message-result (integer n) x h = inl h
  message-result (decimal d) x h = inl h
  message-result (text t) x h = inl h
  message-result (array xs) x h = inl h

  callback-result :
      (callback : Callback) (rest : List Callback) (x : Exchange)
      → HasResult (on_callback expected callback x)
      → HasResult x ⊎ Answered expected responses (callback ∷ rest)
  callback-result (message (some payload)) rest x h = elim (message-result payload x h) [
    | inl before ↦ inl before
    | inr mine ↦ inr (Answered.first payload rest mine)
  ]
  callback-result (message none) rest x h = inl h
  callback-result (connected true) rest x h = inl h
  callback-result (connected false) rest x h = inl h
  callback-result connect_failed rest x h = inl h
  callback-result (subscribed reasons queued) rest x h = inl (ground (arith, h))

  run-result :
      (callbacks : List Callback) (x : Exchange)
      → HasResult (run_callbacks expected callbacks x)
      → HasResult x ⊎ Answered expected responses callbacks
  unfolding run_callbacks
  run-result [] x h = inl h
  run-result (callback ∷ rest) x h = elim (Bool-cases x.broken) [
    | inl broken ↦ inl (rw broken at h)
    | inr running ↦
        elim (run-result rest (on_callback expected callback x) (
          ap (λ (y : Exchange). y.result) (sym (one_callback expected callback rest x running))
          ∙ h)) [
            | inr after ↦ inr (Answered.later callback rest after)
            | inl now ↦ callback-result callback rest x now
          ]
  ]

or_unconfirmed-some :
    (o : Option (List Value)) (responses : List Value)
    → or_unconfirmed o ≡ ok responses
    → o ≡ some responses
or_unconfirmed-some none responses h = absurd (cc)
or_unconfirmed-some (some rs) responses h = cc

exchange-Answered :
    (expected : List String) (connects : Bool) (callbacks : List Callback) (responses : List Value)
    → exchange expected connects callbacks ≡ ok responses
    → Answered expected responses callbacks
exchange-Answered expected false callbacks responses h = absurd (cc)
exchange-Answered expected true callbacks responses h =
    elim (run-result expected responses callbacks opened
      (or_unconfirmed-some (run_callbacks expected callbacks opened).result responses h)) [
        | inl before ↦ absurd (cc)
        | inr there ↦ there
      ]

-- A list that holds a value.
abbrev pub IsIn : String → List String → Type 0
IsIn s [] = ⊥
IsIn s (x ∷ xs) = (s ≡ x) ⊎ IsIn s xs

-- An object among the responses carries the token of a command that was sent.
abbrev pub IsOurs : List String → Value → Type 0
IsOurs expected (object m) =
    (s : String) × (get "correlationData" m ≡ some (text s)) × IsIn s expected
IsOurs expected _ = Unit

-- One of the responses carries the token of a command.
abbrev pub Carries : List Value → String → Type 0
Carries [] s = ⊥
Carries (object m ∷ rest) s = (get "correlationData" m ≡ some (text s)) ⊎ Carries rest s
Carries (_ ∷ rest) s = Carries rest s

-- The responses of a message that answers the commands, each of them and no others.
pub record Matches (expected : List String) (payload : Value) (responses : List Value)
    : Type 0 where
  pub body : Members
  pub items : Items
  pub is_object : payload ≡ object body
  pub found : get "responses" body ≡ some (array items)
  pub same : values items ≡ responses
  pub ours : All (IsOurs expected) responses
  pub each : All (Carries responses) expected

-- Such a message is among the callbacks.
pub data Matched (expected : List String) (responses : List Value) : List Callback → Type 0 where
  first :
      (payload : Value) (rest : List Callback)
      → Matches expected payload responses
      → Matched expected responses (message (some payload) ∷ rest)
  later :
      (callback : Callback) (rest : List Callback)
      → Matched expected responses rest
      → Matched expected responses (callback ∷ rest)

contains-IsIn : (s : String) (xs : List String) → contains s xs ≡ true → IsIn s xs
contains-IsIn s [] h = absurd (cc)
contains-IsIn s (x ∷ xs) h = elim (Bool-cases (str_eq x s)) [
  | inl same ↦ inl (sym ((str_eq_iff x s).0 same))
  | inr other ↦ inr (contains-IsIn s xs (rw other at h))
]

token_text :
    (expected : List String) (o : Option Value) (v : Value)
    → token o ≡ some v
    → is_expected expected v ≡ true
    → (s : String) × (o ≡ some (text s)) × (v ≡ text s) × IsIn s expected
token_text expected (some (text s)) v h k =
    let same : text s ≡ v = cc in (s, refl, sym same, contains-IsIn s expected (cc (k, same)))
token_text expected none v h k =
    let same : null ≡ v = cc in absurd (cc (k, ap (is_expected expected) same))
token_text expected (some null) v h k =
    let same : null ≡ v = cc in absurd (cc (k, ap (is_expected expected) same))
token_text expected (some (boolean b)) v h k =
    let same : boolean b ≡ v = cc in absurd (cc (k, ap (is_expected expected) same))
token_text expected (some (integer n)) v h k =
    let same : integer n ≡ v = cc in absurd (cc (k, ap (is_expected expected) same))
token_text expected (some (decimal d)) v h k =
    let same : decimal d ≡ v = cc in absurd (cc (k, ap (is_expected expected) same))
token_text expected (some (array xs)) v h k = absurd (cc)
token_text expected (some (object m)) v h k = absurd (cc)

add_token-parts :
    (o : Option Value) (p : Option (List Value)) (ts : List Value)
    → add_token o p ≡ some ts
    → (v : Value) × (vs : List Value) × (o ≡ some v) × (p ≡ some vs) × ((v ∷ vs) ≡ ts)
add_token-parts (some v) (some vs) ts h = (v, vs, refl, refl, cc)
add_token-parts none p ts h = absurd (cc)
add_token-parts (some v) none ts h = absurd (cc)

-- The tokens of an object and of the responses behind it.
first_tokens :
    (m : Members) (rest ts : List Value)
    → tokens_of (object m ∷ rest) ≡ some ts
    → (v : Value) × (vs : List Value) × (token (get "correlationData" m) ≡ some v)
      × (tokens_of rest ≡ some vs)
      × ((v ∷ vs) ≡ ts)
unfolding tokens_of
first_tokens m rest ts h = add_token-parts (token (get "correlationData" m)) (tokens_of rest) ts h

both : (a b : Bool) → (a && b) ≡ true → (a ≡ true) × (b ≡ true)
both true b h = (refl, h)
both false b h = absurd (cc)

tokens-IsOurs :
    (expected : List String) (vs ts : List Value)
    → tokens_of vs ≡ some ts
    → all_expected expected ts ≡ true
    → All (IsOurs expected) vs
unfolding tokens_of
tokens-IsOurs expected [] ts h k = tt
tokens-IsOurs expected (object m ∷ rest) ts h k =
    let (v, vs, one, others, same) = first_tokens m rest ts h in
    let (mine, more) =
      both (is_expected expected v) (all_expected expected vs)
        (ap (all_expected expected) same ∙ k) in
    let (s, there, _, member) = token_text expected (get "correlationData" m) v one mine in
    ((s, there, member), tokens-IsOurs expected rest vs others more)
tokens-IsOurs expected (null ∷ rest) ts h k = (tt, tokens-IsOurs expected rest ts h k)
tokens-IsOurs expected (boolean b ∷ rest) ts h k = (tt, tokens-IsOurs expected rest ts h k)
tokens-IsOurs expected (integer n ∷ rest) ts h k = (tt, tokens-IsOurs expected rest ts h k)
tokens-IsOurs expected (decimal d ∷ rest) ts h k = (tt, tokens-IsOurs expected rest ts h k)
tokens-IsOurs expected (text s ∷ rest) ts h k = (tt, tokens-IsOurs expected rest ts h k)
tokens-IsOurs expected (array xs ∷ rest) ts h k = (tt, tokens-IsOurs expected rest ts h k)

-- The text is the token in front, or stands behind it.
text_first :
    (expected : List String) (v : Value) (vs : List Value) (s : String)
    → is_expected expected v ≡ true
    → has_text s (v ∷ vs) ≡ true
    → (v ≡ text s) ⊎ (has_text s vs ≡ true)
text_first expected (text t) vs s k h = elim (Bool-cases (str_eq t s)) [
  | inl same ↦ inl (ap text ((str_eq_iff t s).0 same))
  | inr other ↦ inr (rw other at h)
]
text_first expected _ vs s k h = absurd (cc)

tokens-Carries :
    (expected : List String) (vs ts : List Value) (s : String)
    → tokens_of vs ≡ some ts
    → all_expected expected ts ≡ true
    → has_text s ts ≡ true
    → Carries vs s
unfolding tokens_of
tokens-Carries expected [] ts s h k t =
    let same : [] ≡ ts = cc in absurd (cc (t, ap (has_text s) same))
tokens-Carries expected (object m ∷ rest) ts s h k t =
    let (v, vs, one, others, same) = first_tokens m rest ts h in
    let (mine, more) =
      both (is_expected expected v) (all_expected expected vs)
        (ap (all_expected expected) same ∙ k) in
    let (u, there, text_v, _) = token_text expected (get "correlationData" m) v one mine in
    elim (text_first expected v vs s mine (ap (has_text s) same ∙ t)) [
      | inl here ↦ inl (there ∙ ap some (sym text_v ∙ here))
      | inr behind ↦ inr (tokens-Carries expected rest vs s others more behind)
    ]
tokens-Carries expected (null ∷ rest) ts s h k t = tokens-Carries expected rest ts s h k t
tokens-Carries expected (boolean b ∷ rest) ts s h k t = tokens-Carries expected rest ts s h k t
tokens-Carries expected (integer n ∷ rest) ts s h k t = tokens-Carries expected rest ts s h k t
tokens-Carries expected (decimal d ∷ rest) ts s h k t = tokens-Carries expected rest ts s h k t
tokens-Carries expected (text u ∷ rest) ts s h k t = tokens-Carries expected rest ts s h k t
tokens-Carries expected (array xs ∷ rest) ts s h k t = tokens-Carries expected rest ts s h k t

all-Carries :
    (expected names : List String) (vs ts : List Value)
    → tokens_of vs ≡ some ts
    → all_expected expected ts ≡ true
    → all_there names ts ≡ true
    → All (Carries vs) names
all-Carries expected [] vs ts h k t = tt
all-Carries expected (s ∷ names) vs ts h k t =
    let (one, more) = both (has_text s ts) (all_there names ts) t in
    (tokens-Carries expected vs ts s h k one, all-Carries expected names vs ts h k more)

tokens-match :
    (expected : List String) (vs : List Value) (o : Option (List Value))
    → tokens_of vs ≡ o
    → same_tokens expected o ≡ true
    → All (IsOurs expected) vs × All (Carries vs) expected
tokens-match expected vs none e h = absurd (cc)
tokens-match expected vs (some ts) e h =
    let (mine, all) = both (all_expected expected ts) (all_there expected ts) h in
    (tokens-IsOurs expected vs ts e mine, all-Carries expected expected vs ts e mine all)

Answers-Matches :
    (expected : List String) (payload : Value) (responses : List Value)
    → Answers expected payload responses
    → Matches expected payload responses
Answers-Matches expected payload responses a =
    let (ours, each) =
      tokens-match expected (values a.items) (tokens_of (values a.items)) refl a.tokens in
    record {
      body = a.body;
      items = a.items;
      is_object = a.is_object;
      found = a.found;
      same = a.same;
      ours = subst (All (IsOurs expected)) a.same ours;
      each = subst (λ vs. All (Carries vs) expected) a.same each;
    }

Answered-Matched :
    (expected : List String) (responses : List Value) (callbacks : List Callback)
    → Answered expected responses callbacks
    → Matched expected responses callbacks
Answered-Matched expected responses _ (Answered.first payload rest a) =
    Matched.first payload rest (Answers-Matches expected payload responses a)
Answered-Matched expected responses _ (Answered.later callback rest more) =
    Matched.later callback rest (Answered-Matched expected responses rest more)

-- Whatever the library calls back: responses that a request returns are those of a message among the
-- callbacks. Each object among them carries the token of one of the request's commands, and the token
-- of each command is on one of them.
pub request_matches :
    (expected : List String) (admin_password : FileText String) (connects : Bool)
    (callbacks : List Callback) (responses : List Value)
    → request expected admin_password connects callbacks ≡ ok responses
    → Matched expected responses callbacks
unfolding request
request_matches expected unreadable connects callbacks responses h = absurd (cc)
request_matches expected undecodable connects callbacks responses h = absurd (cc)
request_matches expected (content p) connects callbacks responses h =
    elim (Bool-cases (is_empty (strip p))) [
      | inl empty ↦ absurd (cc (rw empty at h))
      | inr there ↦
          Answered-Matched expected responses callbacks
            (exchange-Answered expected connects callbacks responses (rw there at h))
    ]

-- A callback that is no message of another value than an object does not end the loop.
abbrev pub is_safe : Callback → Bool
is_safe (message (some (object m))) = true
is_safe (message (some _)) = false
is_safe _ = true

abbrev pub are_safe : List Callback → Bool
are_safe [] = true
are_safe (callback ∷ rest) = is_safe callback && are_safe rest

pub responses-there :
    (expected : List String) (o : Option Value) (x : Exchange)
    → ((on_responses expected o x).broken ≡ x.broken)
      × ((is_none (on_responses expected o x).result ≡ false)
          ⊎ ((on_responses expected o x).result ≡ x.result))
responses-there expected none x = (refl, inr refl)
responses-there expected (some (array items)) x =
    elim (Bool-cases (same_tokens expected (tokens_of (values items)))) [
      | inl mine ↦ rw mine (refl, inl refl)
      | inr other ↦ rw other (refl, inr refl)
    ]
responses-there expected (some null) x = (refl, inr refl)
responses-there expected (some (boolean b)) x = (refl, inr refl)
responses-there expected (some (integer n)) x = (refl, inr refl)
responses-there expected (some (decimal d)) x = (refl, inr refl)
responses-there expected (some (text t)) x = (refl, inr refl)
responses-there expected (some (object m)) x = (refl, inr refl)

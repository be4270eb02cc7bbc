-- ===== src/Broker/Accounts.antt =====
-- The methods never change an account that is not ours, whatever the broker answers or loses.
use industrial_equipment_mon.Prelude.{
  String, ◌≡◌, ◌⊎◌, refl, ap, ◌∙◌, inl, inr, Bool, true, false, Option, none, some, str_eq,
  str_eq_iff, if◌then◌else◌, arith, Bool-cases, Option-cases,
}
use industrial_equipment_mon.Broker.{
  Answer, not_confirmed, not_read, answered, no_error, ClientField, no_client, no_lookup, a_client,
  crashed, from_result, if_managed, Broker, Command, get_client, create_client, set_client_password,
  disable_client, enable_client, delete_client, Client, Response, Error, Result, ok, err,
  unavailable, conflict, pure, raise, or_unavailable, continue, ◌>>=◌, one, get_client_of,
  ensure_role, delete_device, enable_device, clear_orphan, create_account, create_device,
  align_account, ensure_device, disable_found, disable_device, is_managed, confirmed, client_of,
}

-- Whether a command writes to the account of this name.
abbrev pub writes_to : String → Command → Bool
writes_to u (create_client v _ _) = str_eq v u
writes_to u (set_client_password v _) = str_eq v u
writes_to u (disable_client v) = str_eq v u
writes_to u (enable_client v) = str_eq v u
writes_to u (delete_client v) = str_eq v u
writes_to u _ = false

-- What Mosquitto documents of dynamic security: a command changes no account but the one that it
-- names, a query changes none, and a getClient that is confirmed reports the account as it is.
pub record Dynsec (b : Broker) : Type 1 where
  pub account : (Broker.State b) → String → Option Client
  pub only_named :
      (c : Command) (s : Broker.State b) (u : String)
      → writes_to u c ≡ false
      → account (Broker.exchange b c s).1 u ≡ account s u
  pub reports :
      (s : Broker.State b) (u : String) (client : Client) (r : Response)
      → account s u ≡ some client
      → (Broker.exchange b (get_client u) s).0 ≡ answered r
      → (r.error ≡ no_error) × (r.client ≡ a_client client)

module _ {S : Type 0} (view : S → Option Client) where
  -- The action leaves the account as it was.
  pub record Keeps {A : Type 0} (m : S → Result A × S) : Type 0 where
    pub at : (s : S) → view (m s).1 ≡ view s

  Keeps-pure : {A : Type 0} (a : A) → Keeps (pure a)
  Keeps-pure a = record { at = λ s. refl }

  Keeps-raise : {A : Type 0} (e : Error) → Keeps {A = A} (raise e)
  Keeps-raise e = record { at = λ s. refl }

  Keeps-if :
      {A : Type 0} (c : Bool) (m n : S → Result A × S)
      → Keeps m
      → Keeps n
      → Keeps (if c then m else n)
  Keeps-if true m n km kn = km
  Keeps-if false m n km kn = kn

  from_result-Keeps : {A : Type 0} (x : S → Result A) → Keeps (λ s. from_result (x s) s)
  from_result-Keeps x = record { at = λ s. refl }

  if_managed-Keeps :
      {A : Type 0} (managed : Option Bool) (m n : S → Result A × S)
      → Keeps m
      → Keeps n
      → Keeps (if_managed managed m n)
  if_managed-Keeps none m n km kn = record { at = λ s. refl }
  if_managed-Keeps (some true) m n km kn = record { at = km.at }
  if_managed-Keeps (some false) m n km kn = record { at = kn.at }

  or_unavailable-Keeps : {A : Type 0} (o : S → Option A) → Keeps (λ s. or_unavailable (o s) s)
  or_unavailable-Keeps o = record {
    at = λ s. elim (Option-cases (o s)) [ inl missing ↦ rw missing | inr (a, there) ↦ rw there ];
  }

  continue-Keeps :
      {A B : Type 0} (r : Result A) (f : A → S → Result B × S) (s : S)
      → ((a : A) → Keeps (f a))
      → view (continue r f s).1 ≡ view s
  continue-Keeps (ok a) f s k = (k a).at s
  continue-Keeps (err e) f s k = refl

  Keeps-bind :
      {A B : Type 0} (m : S → Result A × S) (f : A → S → Result B × S)
      → Keeps m
      → ((a : A) → Keeps (f a))
      → Keeps (m >>= f)
  Keeps-bind m f km kf = record { at = λ s. continue-Keeps (m s).0 f (m s).1 kf ∙ km.at s }

module _ (b : Broker) (d : Dynsec b) (u : String) where
  abbrev view : Broker.State b → Option Client
  view s = d.account s u

  confirmed_state : (c : Command) (o : Answer) (s : Broker.State b) → (confirmed b c o s).1 ≡ s
  confirmed_state c not_confirmed s = refl
  confirmed_state c not_read s = refl
  confirmed_state c (answered r) s = ground arith

  one-Keeps : (c : Command) → writes_to u c ≡ false → Keeps view (one b c)
  unfolding one
  one-Keeps c other = record {
    at = λ s.
        let (o, s') = Broker.exchange b c s in
        ap view (confirmed_state c o s') ∙ d.only_named c s u other;
  }

  client_of-Keeps : (o : ClientField) → Keeps view (client_of b o)
  client_of-Keeps no_client = record { at = λ s. refl }
  client_of-Keeps no_lookup = record { at = λ s. refl }
  client_of-Keeps (a_client c) = record { at = λ s. refl }

  ruleset rules = (
    Keeps-pure, Keeps-raise, Keeps-if, Keeps-bind, or_unavailable-Keeps, one-Keeps, client_of-Keeps,
    from_result-Keeps, if_managed-Keeps, refl,
  )

  get_client_of-Keeps : (v : String) → Keeps view (get_client_of b v)
  unfolding get_client_of
  get_client_of-Keeps v = search rules depth 8

  ensure_role-Keeps : Keeps view (ensure_role b)
  unfolding ensure_role
  ensure_role-Keeps = search rules depth 12

  -- Methods that act on another name.
  module _ (device_id : String) (other : str_eq device_id u ≡ false) where
    delete_device-Keeps : Keeps view (delete_device b device_id)
    unfolding delete_device
    delete_device-Keeps = search (rules, other) depth 8

    enable_device-Keeps : Keeps view (enable_device b device_id)
    unfolding enable_device
    enable_device-Keeps = search (rules, other) depth 8

    create_account-Keeps : (password : String) → Keeps view (create_account b device_id password)
    unfolding create_account
    create_account-Keeps password = search (rules, other, ensure_role-Keeps) depth 10

    clear_orphan-Keeps : (existing : Option Client) → Keeps view (clear_orphan b device_id existing)
    unfolding clear_orphan
    clear_orphan-Keeps none = search rules
    clear_orphan-Keeps (some existing) = search (rules, delete_device-Keeps) depth 6

    create_device-Keeps : (password : String) → Keeps view (create_device b device_id password)
    unfolding create_device
    create_device-Keeps password =
        search (rules, get_client_of-Keeps, clear_orphan-Keeps, create_account-Keeps) depth 12

    align_account-Keeps :
        (password : String) (existing : Option Client)
        → Keeps view (align_account b device_id password existing)
    align_account-Keeps password none = create_device-Keeps password
    align_account-Keeps password (some existing) =
        search (rules, other, enable_device-Keeps) depth 12

    ensure_device-Keeps : (password : String) → Keeps view (ensure_device b device_id password)
    unfolding ensure_device
    ensure_device-Keeps password =
        Keeps-bind view (get_client_of b device_id) (align_account b device_id password)
          (get_client_of-Keeps device_id) (align_account-Keeps password)

    disable_found-Keeps :
        (existing : Option Client) → Keeps view (disable_found b device_id existing)
    disable_found-Keeps none = search rules
    disable_found-Keeps (some existing) = search (rules, other) depth 12

    disable_device-Keeps : Keeps view (disable_device b device_id)
    unfolding disable_device
    disable_device-Keeps =
        Keeps-bind view (get_client_of b device_id) (disable_found b device_id)
          (get_client_of-Keeps device_id) disable_found-Keeps

  -- Methods that act on an account of this name which is not ours: the lookup that each starts with
  -- reports it, or fails.
  module _ (c : Client) (foreign : is_managed c ≡ some false) where
    client_reported :
        (s : Broker.State b) (x : Answer)
        → d.account s u ≡ some c
        → (Broker.exchange b (get_client u) s).0 ≡ x
        → ((e : Error) × ((get_client_of b u s).0 ≡ err e))
          ⊎ ((get_client_of b u s).0 ≡ ok (some c))
    unfolding get_client_of one
    client_reported s not_confirmed h got = inl (unavailable, rw got)
    client_reported s not_read h got = inl (crashed, rw got)
    client_reported s (answered r) h got =
        let (clean, same) = d.reports s u c r h got in
        elim (Bool-cases (str_eq r.command "getClient")) [
          | inl matches ↦ inr (rw got (rw matches (simp (clean, same))))
          | inr strange ↦ inl (unavailable, rw got (rw strange))
        ]

    get_client_of_reports :
        (s : Broker.State b)
        → d.account s u ≡ some c
        → ((e : Error) × ((get_client_of b u s).0 ≡ err e))
          ⊎ ((get_client_of b u s).0 ≡ ok (some c))
    get_client_of_reports s h = client_reported s _ h refl

    -- What follows the lookup is an action that raises a conflict for a foreign account.
    foreign_kept :
        {A : Type 0} (f : Option Client → Broker.State b → Result A × Broker.State b)
        (s : Broker.State b)
        → d.account s u ≡ some c
        → ((s' : Broker.State b) → f (some c) s' ≡ (err conflict, s'))
        → d.account ((get_client_of b u >>= f) s).1 u ≡ some c
    foreign_kept f s h refuses = elim (get_client_of_reports s h) [
      | inl (e, lost) ↦ rw lost ((get_client_of-Keeps u).at s ∙ h)
      | inr found ↦ rw found (rw refuses ((get_client_of-Keeps u).at s ∙ h))
    ]

orphan_refused :
    (b : Broker) (c : Client) (device_id : String) (s : Broker.State b)
    → is_managed c ≡ some false
    → clear_orphan b device_id (some c) s ≡ (err conflict, s)
unfolding clear_orphan
orphan_refused b c device_id s foreign = elim (Bool-cases c.disabled) [
  | inl disabled ↦ rw (disabled, foreign) refl
  | inr active ↦ rw active refl
]

-- However the broker answers, fails or loses commands, as long as a command changes only the account
-- that it names and a confirmed getClient is right: registering, aligning and disabling any device
-- leave an account that lacks the device role as it was.
pub foreign_account_untouched :
    (b : Broker) (d : Dynsec b) (u device_id password : String) (c : Client) (s : Broker.State b)
    → d.account s u ≡ some c
    → is_managed c ≡ some false
    → (d.account (create_device b device_id password s).1 u ≡ some c)
      × (d.account (ensure_device b device_id password s).1 u ≡ some c)
      × (d.account (disable_device b device_id s).1 u ≡ some c)
unfolding create_device ensure_device disable_device
foreign_account_untouched b d u device_id password c s h foreign =
    elim (Bool-cases (str_eq device_id u)) [
      | inr other ↦ (
        (create_device-Keeps b d u device_id other password).at s ∙ h,
        (ensure_device-Keeps b d u device_id other password).at s ∙ h,
        (disable_device-Keeps b d u device_id other).at s ∙ h,
      )
      | inl same ↦ rw ((str_eq_iff device_id u).0 same) (
        foreign_kept b d u c foreign _ s h (λ s'. rw (orphan_refused b c u s' foreign)),
        foreign_kept b d u c foreign _ s h (λ s'. rw foreign),
        foreign_kept b d u c foreign _ s h (λ s'. rw foreign),
      )
    ]

-- ===== src/Service/Dispatch/Reports.antt =====
-- What every answer of internal/service/dispatch.go's `Call` carries.
use mcp_grand_lyon.Base.{
  ◌≡◌, ◌≢◌, ◌⊎◌, String, Bool, true, false, arith, refl, ap, ◌∙◌, if◌then◌else◌, inl, inr, eq_iff,
  Bool-cases, ◌=ₛ◌,
}
use mcp_grand_lyon.Model.Envelope.{Envelope, warn, warn_if}
use mcp_grand_lyon.Service.Dispatch.{
  Json, null, bool, number, text, array, object, Items, no_items, item, Members, no_members, member,
  has_key, clear_realtime, clear_items, clear_members, is_execution_error, attach_error_detail,
  mark_offline_fixture, Tools, Arguments, run, finish, call,
}

-- Every member named "realtime", at any depth, is false.
mutual
  pub IsCleared : Json → Type 0
  IsCleared (array xs) = AreCleared xs
  IsCleared (object ms) = HasCleared ms
  IsCleared _ = Unit

  pub AreCleared : Items → Type 0
  AreCleared no_items = Unit
  AreCleared (item x xs) = IsCleared x × AreCleared xs

  pub HasCleared : Members → Type 0
  HasCleared no_members = Unit
  HasCleared (member k v rest) =
      ((k ≢ "realtime") ⊎ (v ≡ bool false)) × (IsCleared v × HasCleared rest)

has_key-clear_members :
    (key : String) (ms : Members) → has_key key (clear_members ms) ≡ has_key key ms
unfolding has_key clear_members
has_key-clear_members key no_members = refl
has_key-clear_members key (member k v rest) = ground (arith, has_key-clear_members key rest)

-- An answer that is an execution error has an "error" in its data.
abbrev pub IsExplained : Envelope Members → Type 0
IsExplained e = (is_execution_error e.status ≡ false) ⊎ (has_key "error" e.payload ≡ true)

attach_error_detail-IsExplained : (e : Envelope Members) → IsExplained (attach_error_detail e)
unfolding attach_error_detail has_key
attach_error_detail-IsExplained e = ground (arith, eq_iff "error" "error")

warn-status :
    (e : Envelope Members) (code source message : String) (retryable : Bool)
    → ((warn e code source message retryable).status ≡ e.status)
      ⊎ ((warn e code source message retryable).status ≡ "partial")
unfolding warn
warn-status e code source message retryable = elim (Bool-cases (e.status =ₛ "ok")) [
  | inl t ↦ inr (rw t refl)
  | inr f ↦ inl (rw f refl)
]

partial-is_execution_error : is_execution_error "partial" ≡ false
unfolding is_execution_error
partial-is_execution_error = refl

warn-IsExplained :
    (e : Envelope Members) (code source message : String) (retryable : Bool)
    → IsExplained e
    → IsExplained (warn e code source message retryable)
unfolding warn
warn-IsExplained e code source message retryable (inr h) = inr h
warn-IsExplained e code source message retryable (inl h) =
    elim (warn-status e code source message retryable) [
      | inl k ↦ inl (ap is_execution_error k ∙ h)
      | inr k ↦ inl (ap is_execution_error k ∙ partial-is_execution_error)
    ]

warn_if-IsExplained :
    (test : Bool) (e : Envelope Members) (code source message : String) (retryable : Bool)
    → IsExplained e
    → IsExplained (warn_if test e code source message retryable)
unfolding warn_if
warn_if-IsExplained true e code source message retryable h =
    warn-IsExplained e code source message retryable h
warn_if-IsExplained false e code source message retryable h = h

mark_offline_fixture-IsExplained :
    (e : Envelope Members) → IsExplained e → IsExplained (mark_offline_fixture e)
unfolding mark_offline_fixture
mark_offline_fixture-IsExplained e (inl h) = warn-IsExplained _ _ _ _ _ (inl h)
mark_offline_fixture-IsExplained e (inr h) =
    warn-IsExplained _ _ _ _ _ (inr (has_key-clear_members "error" e.payload ∙ h))

if-IsExplained :
    (test : Bool) (e f : Envelope Members)
    → IsExplained e
    → IsExplained f
    → IsExplained (if test then e else f)
if-IsExplained true e f h k = h
if-IsExplained false e f h k = k

finish-IsExplained : (tools : Tools) (e : Envelope Members) → IsExplained (finish tools e)
unfolding finish
finish-IsExplained tools e =
    let h = warn_if-IsExplained _ _ _ _ _ _ (attach_error_detail-IsExplained e) in
    if-IsExplained _ _ _ (mark_offline_fixture-IsExplained _ h) h

-- Whatever the tool, its arguments and its handler, the answer of `Call` that is an execution error
-- (an invalid request, or one that is unavailable) has an "error" in its data.
pub call-IsExplained :
    (tools : Tools) (name : String) (arguments : Arguments)
    → IsExplained (call tools name arguments)
unfolding call
call-IsExplained tools name arguments = finish-IsExplained tools (run tools name arguments)

member-IsCleared :
    (test : Bool) (k : String) (v : Json)
    → ((test ≡ true) ⊎ (k ≢ "realtime"))
    → IsCleared v
    → ((k ≢ "realtime") ⊎ ((if test then bool false else v) ≡ bool false))
      × IsCleared (if test then bool false else v)
unfolding IsCleared
member-IsCleared true k v h c = (inr refl, tt)
member-IsCleared false k v (inl h) c = cc
member-IsCleared false k v (inr h) c = (inl h, c)

key-cases : (k : String) → ((k =ₛ "realtime") ≡ true) ⊎ (k ≢ "realtime")
key-cases k = elim (Bool-cases (k =ₛ "realtime")) [
  | inl t ↦ inl t
  | inr f ↦ inr (λ h. ground (arith, eq_iff k "realtime"))
]

mutual
  unfolding IsCleared clear_realtime

  clear_realtime-IsCleared : (v : Json) → IsCleared (clear_realtime v)
  clear_realtime-IsCleared null = tt
  clear_realtime-IsCleared (bool b) = tt
  clear_realtime-IsCleared (number s) = tt
  clear_realtime-IsCleared (text s) = tt
  clear_realtime-IsCleared (array xs) = clear_items-AreCleared xs
  clear_realtime-IsCleared (object ms) = clear_members-HasCleared ms

  clear_items-AreCleared : (xs : Items) → AreCleared (clear_items xs)
  clear_items-AreCleared no_items = tt
  clear_items-AreCleared (item x xs) = (clear_realtime-IsCleared x, clear_items-AreCleared xs)

  clear_members-HasCleared : (ms : Members) → HasCleared (clear_members ms)
  clear_members-HasCleared no_members = tt
  clear_members-HasCleared (member k v rest) =
      let (a, b) =
        member-IsCleared _ k (clear_realtime v) (key-cases k) (clear_realtime-IsCleared v) in
      (a, (b, clear_members-HasCleared rest))

-- Offline, every member named "realtime" of an answer's data is false, at any depth.
pub mark_offline_fixture-HasCleared :
    (e : Envelope Members) → HasCleared (mark_offline_fixture e).payload
unfolding mark_offline_fixture warn
mark_offline_fixture-HasCleared e = clear_members-HasCleared e.payload

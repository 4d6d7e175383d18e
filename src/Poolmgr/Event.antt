-- ===== src/Poolmgr/Event.antt =====
-- internal/poolmgr/interfaces.go and tracker.go: the Pool Manager's events and their payloads.
-- encoding/json and battery's generated enum are not the program's: `Wire` stands for them.
use Prim.Native.String.{◌++◌ as text_append}
use flintlock_runner.Prelude.{
  ℕ, Bool, true, ◌&&◌, List, [], ◌∷◌, Option, none, some, String, str_eq, eq_iff, Eq, ◌≡◌, ◌↔◌,
  arith,
}

pub record PoolRef : Type 0 where
  pub name : String
  pub namespace : String

unfoldable pub ref_eq : PoolRef → PoolRef → Bool
ref_eq a b = str_eq a.namespace b.namespace && str_eq a.name b.name

pub ref_eq_iff : (a b : PoolRef) → (ref_eq a b ≡ true) ↔ (a ≡ b)
unfolding ref_eq
ref_eq_iff a b = ground (arith, eq_iff a.namespace b.namespace, eq_iff a.name b.name)

instance abbrev pub ref_key : Eq PoolRef
ref_key = record { beq = ref_eq; beq_iff = ref_eq_iff }

-- `PoolRef.String`
unfoldable pub ref_string : PoolRef → String
ref_string r = text_append r.namespace (text_append "/" r.name)

pub data EventType : Type 0 where
  vm_provisioned vm_available vm_claimed vm_released : EventType
  vm_deleted_due_to_expiry vm_deleted_on_release vm_hook_failed : EventType
  pool_size_below_target other : EventType

-- The id and the time of an event, which the Tracker does not read, are left out. The payload is its
-- bytes.
pub record Event : Type 0 where
  pub type : EventType
  pub pool : PoolRef
  pub vm_uid : String
  pub payload : List ℕ

-- Each count is an int32, as its bit pattern.
pub record PoolStatus : Type 0 where
  pub available : ℕ
  pub leased : ℕ
  pub provisioning : ℕ
  pub quarantined : ℕ

pub record BelowTargetPayload : Type 0 where
  pub target : ℕ
  pub available : ℕ
  pub leased : ℕ
  pub provisioning : ℕ
  pub quarantined : ℕ

pub record HookFailureBody : Type 0 where
  pub hook : String
  pub error : String
  pub policy : String

-- `json.Unmarshal` into each payload type, `none` for its error, and the enum's
-- `HookFailurePolicy_QUARANTINE.String()`.
pub record Wire : Type 0 where
  pub unmarshal_counts : List ℕ → Option BelowTargetPayload
  pub unmarshal_hook : List ℕ → Option HookFailureBody
  pub quarantine : String

unfoldable pub below_target_counts : Wire → Event → Option BelowTargetPayload
below_target_counts w event = elim event.payload [
  | [] ↦ none
  | b ∷ bs ↦ w.unmarshal_counts (b ∷ bs)
]

abbrev empty_body : HookFailureBody
empty_body = record { hook = ""; error = ""; policy = "" }

unfoldable pub hook_failure_payload : Wire → Event → HookFailureBody
hook_failure_payload w event = elim event.payload [
  | [] ↦ empty_body
  | b ∷ bs ↦ elim (w.unmarshal_hook (b ∷ bs)) [ none ↦ empty_body | some body ↦ body ]
]

unfoldable pub hook_failure_quarantined : Wire → Event → Bool
unfolding hook_failure_payload
hook_failure_quarantined w event = str_eq (hook_failure_payload w event).policy w.quarantine

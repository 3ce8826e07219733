-- ===== src/MessageEvent.antt =====
-- `MessageEvent` of Source/Common/MessageEvent.h: a message with what is known of its arrival, which
-- copies the message for those that may change it. Messages are objects in a heap; a pointer is an
-- address, or none where it is null.
pub mod Copies
pub mod Adapter
pub mod Examples
use se_navi_common.Common.{
  ℕ, zero, suc, Bool, true, false, not, ◌&&◌, ◌||◌, ◌==◌, ltb, if◌then◌else◌, List, [], ◌∷◌, ◌++◌,
  length, Option, none, some, Result, ok, err,
}
use se_navi_common.Time.{Time}
use se_navi_common.Time.Stamp

-- `assert(create_)` fails, or a null pointer is followed.
pub data EventError : Type 0 where
  no_create_function null_message : EventError

abbrev pub Pointer : Type 0
Pointer = Option ℕ

-- The object at an address.
unfoldable pub load_object {ℓ} : {A : Type ℓ} → ℕ → List A → Option A
load_object p [] = none
load_object zero (a ∷ as') = some a
load_object (suc p) (a ∷ as') = load_object p as'

unfoldable pub store_object {ℓ} : {A : Type ℓ} → ℕ → A → List A → List A
store_object p b [] = []
store_object zero b (a ∷ as') = b ∷ as'
store_object (suc p) b (a ∷ as') = a ∷ store_object p b as'

-- `CreateFunction`, on the heap.
abbrev pub Create : Type 0 → Type 0
Create A = List A → ℕ × List A

-- `DefaultMessageCreator`.
abbrev pub default_message_create_function : {A : Type 0} → A → Create A
default_message_create_function first heap = (length heap, heap ++ (first ∷ []))

pub record MessageEvent (A : Type 0) : Type 0 where
  pub message : Pointer
  pub message_copy : Pointer
  pub connection_header : Pointer
  pub receipt_time : Time
  pub nonconst_need_copy : Bool
  pub create : Option (Create A)

abbrev pub pointer_less : Pointer → Pointer → Bool
pointer_less p none = false
pointer_less none (some q) = true
pointer_less (some p) (some q) = ltb p q

abbrev pub pointer_equals : Pointer → Pointer → Bool
pointer_equals none none = true
pointer_equals (some p) (some q) = p == q
pointer_equals none (some q) = false
pointer_equals (some p) none = false

module _ {A : Type 0} where
  -- `init`.
  unfoldable pub init_event :
      Pointer → Pointer → Time → Bool → Option (Create A) → MessageEvent A → MessageEvent A
  init_event message header time need_copy create e = record e {
    message = message;
    connection_header = header;
    receipt_time = time;
    nonconst_need_copy = need_copy;
    create = create;
  }

  -- `*message_copy_ = *message_` and what is cached.
  abbrev pub copied :
      MessageEvent A
      → Option A
      → ℕ
      → List A
      → Result EventError (Pointer × (MessageEvent A × List A))
  copied e none p heap = err null_message
  copied e (some a) p heap =
      ok (some p, (record e { message_copy = some p }, store_object p a heap))

  abbrev pub pointed : Pointer → List A → Option A
  pointed none heap = none
  pointed (some p) heap = load_object p heap

  abbrev pub created :
      MessageEvent A
      → Option (Create A)
      → List A
      → Result EventError (Pointer × (MessageEvent A × List A))
  created e none heap = err no_create_function
  created e (some create) heap = let r = create heap in copied e (pointed e.message r.1) r.0 r.1

  abbrev pub cached :
      MessageEvent A → Pointer → List A → Result EventError (Pointer × (MessageEvent A × List A))
  cached e (some p) heap = ok (some p, (e, heap))
  cached e none heap = created e e.create heap

  -- `getMessage`, where `is_const` is whether `M` is a const type.
  unfoldable pub get_message :
      Bool → MessageEvent A → List A → Result EventError (Pointer × (MessageEvent A × List A))
  get_message is_const e heap =
      if is_const || not e.nonconst_need_copy
      then ok (e.message, (e, heap))
      else cached e e.message_copy heap

  pub get_message_will_copy : Bool → MessageEvent A → Bool
  get_message_will_copy is_const e = not is_const && e.nonconst_need_copy

  -- `init` with what the right side has, where getMessage gives its message.
  abbrev pub assigned_to : MessageEvent A → Pointer × (MessageEvent A × List A) → MessageEvent A
  assigned_to e (p, (rhs, heap)) =
      record (init_event p rhs.connection_header rhs.receipt_time rhs.nonconst_need_copy rhs.create
        e) { message_copy = none }

  abbrev pub assigned :
      Result EventError (Pointer × (MessageEvent A × List A))
      → MessageEvent A
      → Result EventError (MessageEvent A × (MessageEvent A × List A))
  assigned (err x) e = err x
  assigned (ok r) e = ok (assigned_to e r, r.1)

  -- `operator=`, where `is_const` is the one of the right side; the result has the left side, the
  -- right side and the heap.
  unfoldable pub assign_event :
      Bool
      → MessageEvent A
      → List A
      → MessageEvent A
      → Result EventError (MessageEvent A × (MessageEvent A × List A))
  assign_event is_const rhs heap e = assigned (get_message is_const rhs heap) e

  -- `operator<`.
  unfoldable pub event_less : MessageEvent A → MessageEvent A → Bool
  event_less e rhs =
      if not (pointer_equals e.message rhs.message)
      then pointer_less e.message rhs.message
      else if not (Stamp.equals e.receipt_time rhs.receipt_time)
      then Stamp.less e.receipt_time rhs.receipt_time
      else not e.nonconst_need_copy && rhs.nonconst_need_copy

  -- The constructors.
  abbrev pub empty_event : MessageEvent A
  empty_event = record {
    message = none;
    message_copy = none;
    connection_header = none;
    receipt_time = record { sec = 0; nsec = 0 };
    nonconst_need_copy = true;
    create = none;
  }

  abbrev pub received_event : A → Pointer → Pointer → Time → MessageEvent A
  received_event first message header time =
      init_event message header time true (some (default_message_create_function first)) empty_event

  abbrev pub copy_event :
      Bool
      → MessageEvent A
      → List A
      → Result EventError (MessageEvent A × (MessageEvent A × List A))
  copy_event is_const rhs heap = assign_event is_const rhs heap empty_event

  abbrev pub with_need :
      Bool
      → Result EventError (MessageEvent A × (MessageEvent A × List A))
      → Result EventError (MessageEvent A × (MessageEvent A × List A))
  with_need need (err x) = err x
  with_need need (ok r) = ok (record r.0 { nonconst_need_copy = need }, r.1)

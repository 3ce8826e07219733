-- ===== src/MessageEvent/Copies.antt =====
-- When a `MessageEvent` copies its message, and who shares the copy (Source/Common/MessageEvent.h).
use se_navi_common.Common.{
  ℕ, zero, suc, ◌<◌, ◌≡◌, ◌≢◌, refl, subst, ap, sym, ◌∙◌, Bool, true, false, Bool-cases, inl, inr,
  not, ◌||◌, if◌then◌else◌, List, [], ◌∷◌, length, Option, none, some, Result, ok, err, arith,
}
use se_navi_common.MessageEvent.{
  EventError, Pointer, Create, MessageEvent, load_object, store_object, copied, created, cached,
  pointed, get_message, assign_event, init_event, assigned, assigned_to,
}

chosen : {A : Type 0} (b c : Bool) (x y : A) → b ≡ c → (if b then x else y) ≡ (if c then x else y)
chosen b c x y e = ap (λ d. if d then x else y) e

load_object-store_object :
    {A : Type 0} (p : ℕ) (a : A) (heap : List A)
    → p < length heap
    → load_object p (store_object p a heap) ≡ some a
unfolding load_object store_object
load_object-store_object p a [] h = absurd (omega arith)
load_object-store_object zero a (b ∷ bs) h = refl
load_object-store_object (suc p) a (b ∷ bs) h = load_object-store_object p a bs (omega arith)

load_object-store_object_other :
    {A : Type 0} (p q : ℕ) (a : A) (heap : List A)
    → q ≢ p
    → load_object q (store_object p a heap) ≡ load_object q heap
unfolding load_object store_object
load_object-store_object_other p q a [] n = refl
load_object-store_object_other zero zero a (b ∷ bs) n = absurd (n refl)
load_object-store_object_other zero (suc q) a (b ∷ bs) n = refl
load_object-store_object_other (suc p) zero a (b ∷ bs) n = refl
load_object-store_object_other (suc p) (suc q) a (b ∷ bs) n =
    load_object-store_object_other p q a bs (λ e. n (ap suc e))

abbrev result_or : {B : Type 0} → B → Result EventError B → B
result_or d (err x) = d
result_or d (ok b) = b

module _ {A : Type 0} (is_const : Bool) where
  -- getMessage gives this pointer, from whatever heap, and changes nothing.
  abbrev pub Gives : Pointer → MessageEvent A → Type 0
  Gives p e = (heap : List A) → get_message is_const e heap ≡ ok (p, (e, heap))

  abbrev GivesAgain : Result EventError (Pointer × (MessageEvent A × List A)) → Type 0
  GivesAgain (err x) = Unit
  GivesAgain (ok r) = Gives r.0 r.1.0

  pub Gives-message :
      (e : MessageEvent A) → (is_const || not e.nonconst_need_copy) ≡ true → Gives e.message e
  unfolding get_message
  Gives-message e h heap = chosen (is_const || not e.nonconst_need_copy) true _ _ h

  needs_copy :
      (e : MessageEvent A)
      → (is_const || not e.nonconst_need_copy) ≡ false
      → (heap : List A) → get_message is_const e heap ≡ cached e e.message_copy heap
  unfolding get_message
  needs_copy e h heap = chosen (is_const || not e.nonconst_need_copy) false _ _ h

  Gives-copy :
      (e : MessageEvent A) (p : ℕ)
      → (is_const || not e.nonconst_need_copy) ≡ false
      → e.message_copy ≡ some p
      → Gives (some p) e
  Gives-copy e p h c heap = needs_copy e h heap ∙ ap (λ o. cached e o heap) c

  copied_again :
      (e : MessageEvent A) (found : Option A) (p : ℕ) (heap : List A)
      → (is_const || not e.nonconst_need_copy) ≡ false
      → GivesAgain (copied e found p heap)
  copied_again e none p heap h = tt
  copied_again e (some a) p heap h = Gives-copy (record e { message_copy = some p }) p h refl

  created_again :
      (e : MessageEvent A) (create : Option (Create A)) (heap : List A)
      → (is_const || not e.nonconst_need_copy) ≡ false
      → GivesAgain (created e create heap)
  created_again e none heap h = tt
  created_again e (some create) heap h = copied_again e _ _ _ h

  cached_again :
      (e : MessageEvent A) (copy : Pointer) (heap : List A)
      → (is_const || not e.nonconst_need_copy) ≡ false
      → e.message_copy ≡ copy
      → GivesAgain (cached e copy heap)
  cached_again e none heap h c = created_again e e.create heap h
  cached_again e (some p) heap h c = Gives-copy e p h c

  get_message-GivesAgain :
      (e : MessageEvent A) (heap : List A) → GivesAgain (get_message is_const e heap)
  get_message-GivesAgain e heap = elim (Bool-cases (is_const || not e.nonconst_need_copy)) [
    | inl t ↦ subst GivesAgain (sym (Gives-message e t heap)) (Gives-message e t)
    | inr f ↦
        subst GivesAgain (sym (needs_copy e f heap)) (cached_again e e.message_copy heap f refl)
  ]

  shared :
      (r : Result EventError (Pointer × (MessageEvent A × List A))) (e e' rhs' : MessageEvent A)
      (heap' : List A)
      → GivesAgain r
      → assigned r e ≡ ok (e', (rhs', heap'))
      → Gives e'.message rhs'
  unfolding init_event
  shared (err x) e e' rhs' heap' g h = cc h
  shared (ok r) e e' rhs' heap' g h =
      subst (λ (t : MessageEvent A × (MessageEvent A × List A)). Gives t.0.message t.1.0)
        (ap (result_or (assigned_to e r, r.1)) h) g

  -- If the assignment of an event to another succeeds, the message of the left side is the very
  -- object that getMessage of the right side gives from then on, so it is the copy that the
  -- holders of the right side may change where the right side makes a copy.
  pub assign_shares :
      (rhs rhs' e e' : MessageEvent A) (heap heap' : List A)
      → assign_event is_const rhs heap e ≡ ok (e', (rhs', heap'))
      → Gives e'.message rhs'
  unfolding assign_event
  assign_shares rhs rhs' e e' heap heap' h =
      shared (get_message is_const rhs heap) e e' rhs' heap' (get_message-GivesAgain rhs heap) h

Gives-pointed :
    {A : Type 0} (e : MessageEvent A) (m : ℕ) → e.message ≡ some m → Gives true (some m) e
Gives-pointed e m points heap = Gives-message true e refl heap ∙ ap (λ o. ok (o, (e, heap))) points

-- getMessage of an event for a non-const type that needs a copy, has none yet and has a message
-- and a create function, which keeps the message and returns the address of an object: it
-- returns that address, where a copy of the message is now, and every other object is as the
-- create function left it. From then on, whatever happens to the heap, getMessage returns the
-- same address and changes nothing, and the const message is the original.
pub get_message_copies :
    {A : Type 0} (e : MessageEvent A) (m p : ℕ) (a : A) (create : Create A) (heap heap' : List A)
    → e.nonconst_need_copy ≡ true
    → e.message ≡ some m
    → e.message_copy ≡ none
    → e.create ≡ some create
    → create heap ≡ (p, heap')
    → load_object m heap' ≡ some a
    → p < length heap'
    → (e' : MessageEvent A) × ((heap'' : List A) × ((get_message false e heap
            ≡ ok (some p, (e', heap'')))
          × ((load_object p heap'' ≡ some a)
              × (((q : ℕ) → q ≢ p → load_object q heap'' ≡ load_object q heap')
                  × (Gives false (some p) e' × Gives true (some m) e')))))
get_message_copies {A = A} e m p a create heap heap' need points fresh makes made found new = (
  record e { message_copy = some p },
  (
    store_object p a heap',
    (
      needs_copy false e (ap not need) heap
          ∙ ap (λ o. cached e o heap) fresh
          ∙ ap (λ o. created e o heap) makes
          ∙ ap (λ (r : ℕ × List A). copied e (pointed e.message r.1) r.0 r.1) made
          ∙ ap (λ o. copied e (pointed o heap') p heap') points
          ∙ ap (λ o. copied e o p heap') found,
      (
        load_object-store_object p a heap' new,
        (
          (λ q n. load_object-store_object_other p q a heap' n),
          (
            Gives-copy false (record e { message_copy = some p }) p (ap not need) refl,
            Gives-pointed (record e { message_copy = some p }) m points,
          ),
        ),
      ),
    ),
  ),
)

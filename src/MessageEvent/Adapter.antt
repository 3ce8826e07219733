-- ===== src/MessageEvent/Adapter.antt =====
-- Source/Common/ParameterAdapter.h: what a callback gets of an event, by the form of its parameter.
use se_navi_common.Common.{
  zero, suc, ◌∷◌, ◌++◌, ◌≤◌, arith, ℕ, ◌<◌, ◌≡◌, ◌≢◌, refl, ap, ◌∙◌, Bool, true, false, List, [],
  length, if◌then◌else◌, Option, none, some, Result, ok, err,
}
use se_navi_common.MessageEvent.{
  EventError, null_message, Pointer, Create, MessageEvent, load_object, get_message, pointed,
  assigned, assigned_to, init_event, assign_event, empty_event, copy_event,
}
use se_navi_common.MessageEvent.Copies.{Gives-message, get_message_copies}

-- The specializations: `M`, `const M&`, `shared_ptr<M const>` as a value or a reference,
-- `shared_ptr<M>` as a value or a reference, `MessageEvent<M const>` and `MessageEvent<M>`.
pub data Form : Type 0 where
  by_value const_ref shared_const shared_const_ref shared shared_ref event_const event : Form

-- Their `is_const`.
abbrev pub is_const_form : Form → Bool
is_const_form shared = false
is_const_form shared_ref = false
is_const_form event = false
is_const_form _ = true

-- An object by value or by reference, a pointer, or an event.
pub data Argument (A : Type 0) : Type 0 where
  a_value : A → Argument A
  object : ℕ → Argument A
  pointer : Pointer → Argument A
  an_event : MessageEvent A → Argument A

-- A result and the event, and the heap.
abbrev pub Got : Type 0 → Type 0
Got A = Result EventError (Argument A × (MessageEvent A × List A))

less_other : (p q : ℕ) → p < q → p ≢ q
less_other p q h e = omega (arith, h, e)

module _ {A : Type 0} where
  -- `*event.getMessage()`, by value and as a reference.
  abbrev pub value_at : Option A → MessageEvent A × List A → Got A
  value_at none rest = err null_message
  value_at (some a) rest = ok (a_value a, rest)

  abbrev pub by_value_of : Result EventError (Pointer × (MessageEvent A × List A)) → Got A
  by_value_of (err x) = err x
  by_value_of (ok r) = value_at (pointed r.0 r.1.1) r.1

  abbrev pub object_at : Pointer → MessageEvent A × List A → Got A
  object_at none rest = err null_message
  object_at (some p) rest = ok (object p, rest)

  abbrev pub reference_of : Result EventError (Pointer × (MessageEvent A × List A)) → Got A
  reference_of (err x) = err x
  reference_of (ok r) = object_at r.0 r.1

  abbrev pub pointer_of : Result EventError (Pointer × (MessageEvent A × List A)) → Got A
  pointer_of (err x) = err x
  pointer_of (ok r) = ok (pointer r.0, r.1)

  -- `getMessage` of a new event, which is gone afterwards; the event itself is left.
  abbrev pub pointer_from :
      MessageEvent A → Result EventError (Pointer × (MessageEvent A × List A)) → Got A
  pointer_from e (err x) = err x
  pointer_from e (ok r) = ok (pointer r.0, (e, r.1.1))

  abbrev pub message_of_copy :
      Result EventError (MessageEvent A × (MessageEvent A × List A)) → Got A
  message_of_copy (err x) = err x
  message_of_copy (ok r) = pointer_from r.1.0 (get_message false r.0 r.1.1)

  abbrev pub event_of_copy : Result EventError (MessageEvent A × (MessageEvent A × List A)) → Got A
  event_of_copy (err x) = err x
  event_of_copy (ok r) = ok (an_event r.0, r.1)

  -- `ParameterAdapter<M>::getParameter`, of an event for a const type.
  unfoldable pub get_parameter_of : Form → MessageEvent A → List A → Got A
  get_parameter_of by_value e heap = by_value_of (get_message true e heap)
  get_parameter_of const_ref e heap = reference_of (get_message true e heap)
  get_parameter_of shared_const e heap = pointer_of (get_message true e heap)
  get_parameter_of shared_const_ref e heap = pointer_of (get_message true e heap)
  get_parameter_of shared e heap = message_of_copy (copy_event true e heap)
  get_parameter_of shared_ref e heap = message_of_copy (copy_event true e heap)
  get_parameter_of event_const e heap = ok (an_event e, (e, heap))
  get_parameter_of event e heap = event_of_copy (copy_event true e heap)

  -- What a const form gets of a message.
  abbrev pub original : Form → MessageEvent A → ℕ → A → Argument A
  original by_value e m a = a_value a
  original const_ref e m a = object m
  original event_const e m a = an_event e
  original _ e m a = pointer (some m)

  const_message :
      (e : MessageEvent A) (m : ℕ) (heap : List A)
      → e.message ≡ some m
      → get_message true e heap ≡ ok (some m, (e, heap))
  const_message e m heap points =
      Gives-message true e refl heap ∙ ap (λ o. ok (o, (e, heap))) points

  -- The const forms give the original message and change nothing.
  pub const_forms :
      (form : Form) (e : MessageEvent A) (m : ℕ) (a : A) (heap : List A)
      → is_const_form form ≡ true
      → e.message ≡ some m
      → load_object m heap ≡ some a
      → get_parameter_of form e heap ≡ ok (original form e m a, (e, heap))
  unfolding get_parameter_of
  const_forms by_value e m a heap c points found =
      ap by_value_of (const_message e m heap points) ∙ ap (λ o. value_at o (e, heap)) found
  const_forms const_ref e m a heap c points found = ap reference_of (const_message e m heap points)
  const_forms shared_const e m a heap c points found = ap pointer_of (const_message e m heap points)
  const_forms shared_const_ref e m a heap c points found =
      ap pointer_of (const_message e m heap points)
  const_forms shared e m a heap c points found = cc c
  const_forms shared_ref e m a heap c points found = cc c
  const_forms event_const e m a heap c points found = refl
  const_forms event e m a heap c points found = cc c

  -- The event that a callback which may change the message gets.
  abbrev pub own_event : MessageEvent A → MessageEvent A
  own_event e = assigned_to empty_event (e.message, (e, []))

  copied_event :
      (e : MessageEvent A) (heap : List A) → copy_event true e heap ≡ ok (own_event e, (e, heap))
  unfolding assign_event
  copied_event e heap = ap (λ r. assigned r empty_event) (Gives-message true e refl heap)

  got_pointer :
      (e own : MessageEvent A) (heap heap'' : List A) (p : ℕ) (by_ref : Bool)
      → copy_event true e heap ≡ ok (own_event e, (e, heap))
      → get_message false (own_event e) heap ≡ ok (some p, (own, heap''))
      → get_parameter_of (if by_ref then shared_ref else shared) e heap
        ≡ ok (pointer (some p), (e, heap''))
  unfolding get_parameter_of
  got_pointer e own heap heap'' p true h k = ap message_of_copy h ∙ ap (pointer_from e) k
  got_pointer e own heap heap'' p false h k = ap message_of_copy h ∙ ap (pointer_from e) k

  -- A callback that may change the message gets the object that `create` made, with a copy in it.
  pub own_copy :
      (by_ref : Bool) (e : MessageEvent A) (m p : ℕ) (a : A) (create : Create A)
      (heap heap' : List A)
      → e.nonconst_need_copy ≡ true
      → e.message ≡ some m
      → e.create ≡ some create
      → create heap ≡ (p, heap')
      → load_object m heap' ≡ some a
      → p < length heap'
      → (heap'' : List A) × ((get_parameter_of (if by_ref then shared_ref else shared) e heap
            ≡ ok (pointer (some p), (e, heap'')))
          × ((load_object p heap'' ≡ some a)
              × ((q : ℕ) → q ≢ p → load_object q heap'' ≡ load_object q heap')))
  unfolding init_event
  own_copy by_ref e m p a create heap heap' need points makes made found new =
      let (own, (heap'', (gets, (here, (others, _))))) =
        get_message_copies (own_event e) m p a create heap heap' need points refl makes made found
          new in
      (heap'', (got_pointer e own heap heap'' p by_ref (copied_event e heap) gets, (here, others)))

  -- A create function that makes a new object and keeps the others.
  pub record IsFresh (create : Create A) : Type 0 where
    pub is_new : (heap : List A) → length heap ≤ (create heap).0
    pub is_object : (heap : List A) → (create heap).0 < length (create heap).1
    pub keeps :
        (heap : List A) (q : ℕ)
        → q < length heap
        → load_object q (create heap).1 ≡ load_object q heap

  load_in : (q : ℕ) (a : A) (heap : List A) → load_object q heap ≡ some a → q < length heap
  unfolding load_object
  load_in q a [] h = cc h
  load_in zero a (b ∷ heap) h = omega arith
  load_in (suc q) a (b ∷ heap) h = omega (arith, load_in q a heap h)

  pub load_object-append :
      (q : ℕ) (heap more : List A)
      → q < length heap
      → load_object q (heap ++ more) ≡ load_object q heap
  unfolding load_object
  load_object-append q [] more h = absurd (omega (arith, h))
  load_object-append zero (b ∷ heap) more h = refl
  load_object-append (suc q) (b ∷ heap) more h = load_object-append q heap more (omega (arith, h))

  -- What one callback gets, from a create function that makes new objects.
  fresh_copy :
      (by_ref : Bool) (e : MessageEvent A) (m : ℕ) (a : A) (create : Create A) (heap : List A)
      → e.nonconst_need_copy ≡ true
      → e.message ≡ some m
      → e.create ≡ some create
      → IsFresh create
      → load_object m heap ≡ some a
      → (heap' : List A) × ((get_parameter_of (if by_ref then shared_ref else shared) e heap
            ≡ ok (pointer (some (create heap).0), (e, heap')))
          × ((load_object (create heap).0 heap' ≡ some a)
              × ((q : ℕ) → q < length heap → load_object q heap' ≡ load_object q heap)))
  fresh_copy by_ref e m a create heap need points makes fresh found =
      let p = (create heap).0 in
      let kept = fresh.keeps heap in
      let (heap', (gets, (here, others))) =
        own_copy by_ref e m p a create heap (create heap).1 need points makes refl
          (kept m (load_in m a heap found) ∙ found) (fresh.is_object heap) in
      (
        heap',
        (
          gets,
          (here, λ q h. others q (less_other q p (omega (arith, h, fresh.is_new heap))) ∙ kept q h),
        ),
      )

  -- If the event has a message that callbacks have to copy, and its create function makes a new
  -- object and keeps the others: two callbacks in a row that take the message as a pointer which
  -- may change it, or by a reference to such a pointer, get a new object each, neither the
  -- original nor one another's, and afterwards the original and both objects hold the message.
  pub own_copies :
      (first_by_ref second_by_ref : Bool) (e : MessageEvent A) (m : ℕ) (a : A) (create : Create A)
      (heap : List A)
      → e.nonconst_need_copy ≡ true
      → e.message ≡ some m
      → e.create ≡ some create
      → IsFresh create
      → load_object m heap ≡ some a
      → (p : ℕ) × ((heap1 : List A) × ((q : ℕ) × ((heap2 : List A) × ((get_parameter_of
                    (if first_by_ref then shared_ref else shared)
                    e
                    heap
                  ≡ ok (pointer (some p), (e, heap1)))
                × ((get_parameter_of (if second_by_ref then shared_ref else shared) e heap1
                      ≡ ok (pointer (some q), (e, heap2)))
                    × ((m < p)
                        × ((p < q)
                            × ((load_object m heap2 ≡ some a)
                                × ((load_object p heap2 ≡ some a)
                                    × (load_object q heap2 ≡ some a))))))))))
  own_copies first_by_ref second_by_ref e m a create heap need points makes fresh found =
      let (heap1, (gets1, (here1, others1))) =
        fresh_copy first_by_ref e m a create heap need points makes fresh found in
      let in_heap = load_in m a heap found in
      let found1 = others1 m in_heap ∙ found in
      let (heap2, (gets2, (here2, others2))) =
        fresh_copy second_by_ref e m a create heap1 need points makes fresh found1 in
      let p_in = load_in (create heap).0 a heap1 here1 in
      (
        (create heap).0,
        (
          heap1,
          (
            (create heap1).0,
            (
              heap2,
              (
                gets1,
                (
                  gets2,
                  (
                    omega (arith, in_heap, fresh.is_new heap),
                    (
                      omega (arith, p_in, fresh.is_new heap1),
                      (
                        others2 m (load_in m a heap1 found1) ∙ found1,
                        (others2 (create heap).0 p_in ∙ here1, here2),
                      ),
                    ),
                  ),
                ),
              ),
            ),
          ),
        ),
      )

-- ===== src/MessageEvent/Examples.antt =====
-- Events of Source/Common/MessageEvent.h for a message that is a number.
use se_navi_common.Common.{
  ℕ, ◌≡◌, ◌≢◌, refl, true, false, List, [], ◌∷◌, none, some, ok, arith, ◌<◌, length-append,
}
use se_navi_common.MessageEvent.{
  MessageEvent, default_message_create_function, load_object, get_message,
}
use se_navi_common.MessageEvent.Adapter.{
  shared, shared_ref, pointer, get_parameter_of, IsFresh, load_object-append, own_copies,
}
use se_navi_common.MessageEvent.Copies.{Gives, get_message_copies}

abbrev event_of_42 : MessageEvent ℕ
event_of_42 = record {
  message = some 0;
  message_copy = none;
  connection_header = none;
  receipt_time = record { sec = 7; nsec = 0 };
  nonconst_need_copy = true;
  create = some (default_message_create_function 0);
}

event_copy_example :
    (e' : MessageEvent ℕ) × ((heap'' : List ℕ) × ((get_message false event_of_42 (42 ∷ [])
          ≡ ok (some 1, (e', heap'')))
        × ((load_object 1 heap'' ≡ some 42)
            × (((q : ℕ) → q ≢ 1 → load_object q heap'' ≡ load_object q (42 ∷ 0 ∷ []))
                × (Gives false (some 1) e' × Gives true (some 0) e')))))
unfolding load_object
event_copy_example =
    get_message_copies event_of_42 0 1 42 (default_message_create_function 0) (42 ∷ [])
      (42 ∷ 0 ∷ []) refl refl refl refl refl refl (omega arith)

IsFresh-objects : IsFresh {A = ℕ} (default_message_create_function 0)
IsFresh-objects = record {
  is_new = λ heap. omega arith;
  is_object = λ heap. omega (arith, length-append heap (0 ∷ []));
  keeps = λ heap q h. load_object-append q heap (0 ∷ []) h;
}

own_copies_example :
    (p : ℕ) × ((heap1 : List ℕ) × ((q : ℕ) × ((heap2 : List ℕ) × ((get_parameter_of shared
                event_of_42
                (42 ∷ [])
              ≡ ok (pointer (some p), (event_of_42, heap1)))
            × ((get_parameter_of shared_ref event_of_42 heap1
                  ≡ ok (pointer (some q), (event_of_42, heap2)))
                × ((0 < p)
                    × ((p < q)
                        × ((load_object 0 heap2 ≡ some 42)
                            × ((load_object p heap2 ≡ some 42)
                                × (load_object q heap2 ≡ some 42))))))))))
unfolding load_object
own_copies_example =
    own_copies false true event_of_42 0 42 (default_message_create_function 0) (42 ∷ []) refl refl
      refl IsFresh-objects refl

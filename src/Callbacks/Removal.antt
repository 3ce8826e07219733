-- ===== src/Callbacks/Removal.antt =====
-- `removeByID`, and which callback `callOne` takes.
use se_navi_common.Common.{
  ℕ, ◌≡◌, refl, ap, ap₂, sym, Bool, true, false, not, ◌&&◌, ◌==◌, ==_iff, Bool-cases, inl, inr,
  if◌then◌else◌, List, [], ◌∷◌, ◌++◌, arith, All,
}
use se_navi_common.Callbacks.{
  CallbackInfo, State, contains, erase_id, erase_callbacks, mark_callbacks, remove_by_id,
}
use se_navi_common.Callbacks.Running.{keep, runs, info_of}

-- A callback of another id.
abbrev pub is_other : ℕ → CallbackInfo → Bool
is_other id info = not (info.removal_id == id)

contains-erase :
    (j id : ℕ) (ids : List ℕ) → contains j (erase_id id ids) ≡ contains j ids && not (j == id)
unfolding contains erase_id
contains-erase j id [] = refl
contains-erase j id (x ∷ xs) = let rest = contains-erase j id xs in ground arith

erase_callbacks_lem :
    (id : ℕ) (infos : List CallbackInfo) → erase_callbacks id infos ≡ keep (is_other id) infos
unfolding erase_callbacks keep
erase_callbacks_lem id [] = refl
erase_callbacks_lem id (info ∷ infos) = elim (Bool-cases (info.removal_id == id)) [
  | inl e ↦ rw e (erase_callbacks_lem id infos)
  | inr e ↦ rw e (ap (λ r. info ∷ r) (erase_callbacks_lem id infos))
]

-- Where every callback is of another id, none is erased.
none_erased :
    (id : ℕ) (ids : List ℕ) (infos : List CallbackInfo)
    → contains id ids ≡ false
    → All (λ info. contains info.removal_id ids ≡ true) infos
    → keep (is_other id) infos ≡ infos
unfolding keep
none_erased id ids [] h all = refl
none_erased id ids (info ∷ infos) h all = elim (Bool-cases (info.removal_id == id)) [
  | inl e ↦ cc ((==_iff info.removal_id id).0 e, all.0)
  | inr e ↦ rw e (ap (λ r. info ∷ r) (none_erased id ids infos h all.1))
]

and_true : (b : Bool) → b && true ≡ b
and_true true = refl
and_true false = refl

and_false : (b : Bool) → b && false ≡ false
and_false true = refl
and_false false = refl

abbrev pub kept : (CallbackInfo → Bool) → CallbackInfo → List CallbackInfo
kept test info = if test info then info ∷ [] else []

abbrev mark_if : ℕ → CallbackInfo → CallbackInfo
mark_if id info = if info.removal_id == id then record info { marked_for_removal = true } else info

marked_run :
    (id : ℕ) (ids : List ℕ) (cb rid : ℕ) (marked b : Bool)
    → (rid == id) ≡ b
    → kept (runs (erase_id id ids)) (mark_if id (info_of cb rid marked))
      ≡ kept (λ info. runs ids info && is_other id info) (info_of cb rid marked)
marked_run id ids cb rid marked true e =
    rw (e, and_false (contains rid (erase_id id ids)), and_false (runs ids (info_of cb rid marked)))
marked_run id ids cb rid marked false e = rw (
  e,
  contains-erase rid id ids,
  e,
  and_true (contains rid ids),
  and_true (runs ids (info_of cb rid marked)),
)

marked_runs :
    (id : ℕ) (ids : List ℕ) (infos : List CallbackInfo)
    → keep (runs (erase_id id ids)) (mark_callbacks id infos)
      ≡ keep (λ info. runs ids info && is_other id info) infos
unfolding keep mark_callbacks
marked_runs id ids [] = refl
marked_runs id ids (info ∷ infos) =
    ap₂ (λ xs ys. xs ++ ys)
      (marked_run id ids info.callback info.removal_id info.marked_for_removal
        (info.removal_id == id) refl)
      (marked_runs id ids infos)

-- Where the id is not known, it is not called anyway.
unknown_run :
    (id : ℕ) (ids : List ℕ) (info : CallbackInfo) (b : Bool)
    → (info.removal_id == id) ≡ b
    → contains id ids ≡ false
    → kept (runs ids) info ≡ kept (λ info. runs ids info && is_other id info) info
unknown_run id ids info true e h =
    rw (e, and_false (runs ids info), ap (λ i. contains i ids) ((==_iff info.removal_id id).0 e), h)
unknown_run id ids info false e h = rw (e, and_true (runs ids info))

unknown_runs :
    (id : ℕ) (ids : List ℕ) (infos : List CallbackInfo)
    → contains id ids ≡ false
    → keep (runs ids) infos ≡ keep (λ info. runs ids info && is_other id info) infos
unfolding keep
unknown_runs id ids [] h = refl
unknown_runs id ids (info ∷ infos) h =
    ap₂ (λ xs ys. xs ++ ys) (unknown_run id ids info (info.removal_id == id) refl h)
      (unknown_runs id ids infos h)

-- Every callback of the queue has a registered id.
abbrev pub Registered : State → Type 0
Registered s = All (λ info. contains info.removal_id s.queue.id_info ≡ true) s.queue.callbacks

erased_registered :
    (id : ℕ) (ids : List ℕ) (infos : List CallbackInfo)
    → All (λ info. contains info.removal_id ids ≡ true) infos
    → All (λ info. contains info.removal_id (erase_id id ids) ≡ true) (keep (is_other id) infos)
unfolding keep
erased_registered id ids [] all = tt
erased_registered id ids (info ∷ infos) all = elim (Bool-cases (info.removal_id == id)) [
  | inl e ↦ rw e (erased_registered id ids infos all.1)
  | inr e ↦ rw e (
    rw (contains-erase info.removal_id id ids, e, and_true) all.0,
    erased_registered id ids infos all.1,
  )
]

unknown_id :
    (id j : ℕ) (ids : List ℕ)
    → contains id ids ≡ false
    → contains j ids ≡ contains j ids && not (j == id)
unknown_id id j ids h = elim (Bool-cases (j == id)) [
  | inl e ↦ rw (e, and_false (contains j ids), ap (λ i. contains i ids) ((==_iff j id).0 e)) h
  | inr e ↦ rw (e, and_true (contains j ids)) refl
]

-- What a removal leaves.
pub record Removed (id : ℕ) (s s' : State) : Type 0 where
  pub queued : s'.queue.callbacks ≡ keep (is_other id) s.queue.callbacks
  pub running :
      keep (runs s'.queue.id_info) s'.tls.callbacks
      ≡ keep (λ info. runs s.queue.id_info info && is_other id info) s.tls.callbacks
  pub ids : (j : ℕ) → contains j s'.queue.id_info ≡ contains j s.queue.id_info && not (j == id)
  pub counts : s'.queue.calling ≡ s.queue.calling
  pub registered : Registered s'

removal_if :
    (id : ℕ) (s : State) (b : Bool)
    → contains id s.queue.id_info ≡ b
    → Registered s
    → Removed id s (
        if b
        then record s {
          queue = record s.queue {
            callbacks = erase_callbacks id s.queue.callbacks;
            id_info = erase_id id s.queue.id_info;
          };
          tls = record s.tls { callbacks = mark_callbacks id s.tls.callbacks };
        }
        else s)
removal_if id s true e wf = record {
  queued = erase_callbacks_lem id s.queue.callbacks;
  running = marked_runs id s.queue.id_info s.tls.callbacks;
  ids = λ j. contains-erase j id s.queue.id_info;
  counts = refl;
  registered =
      rw (erase_callbacks_lem id s.queue.callbacks)
        (erased_registered id s.queue.id_info s.queue.callbacks wf);
}
removal_if id s false e wf = record {
  queued = sym (none_erased id s.queue.id_info s.queue.callbacks e wf);
  running = unknown_runs id s.queue.id_info s.tls.callbacks e;
  ids = λ j. unknown_id id j s.queue.id_info e;
  counts = refl;
  registered = wf;
}

-- If every callback of the queue has a registered id, removeByID leaves exactly the queue's
-- callbacks of other ids. Of the callbacks that the thread has taken already, those that would
-- still be called are the ones of other ids that would have been called before. The id is no
-- longer registered, all others are as before, the number of callbacks in progress is unchanged,
-- and every callback of the queue still has a registered id.
pub remove_by_id_lem : (id : ℕ) (s : State) → Registered s → Removed id s (remove_by_id id s)
unfolding remove_by_id
remove_by_id_lem id s wf = removal_if id s (contains id s.queue.id_info) refl wf

-- ===== src/Channel/Registry.antt =====
-- Adding and removing handlers of an event (channel/socket.go).
use qpub_go.Prelude.{
  ℕ, true, false, ◌||◌, ◌&&◌, not, Option, some, List, [], ◌∷◌, ◌++◌, ◌≡◌, ◌∙◌, ap, inl, inr, refl,
  arith, ◌==◌, if◌then◌else◌, Option-cases,
}
use qpub_go.Prelude.Text.{Text, same, same_iff, same_refl}
use qpub_go.Prelude.Dict.{lookup, lookup-insert, lookup-delete}
use qpub_go.Channel.Types.{Handler, SocketChannel}
use qpub_go.Channel.Handlers.{
  Callbacks, handler_identity, list_or_nil, has_identity, add_event_handler_locked, without,
  remove_from, remove_event_handler_locked,
}

-- The handlers of an event, in the order in which they were added.
abbrev pub handlers_of : Text → Callbacks → List (Option Handler)
handlers_of event callbacks = list_or_nil (lookup event callbacks)

has_identity-append :
    (id : ℕ) (hs : List (Option Handler)) (h : Option Handler)
    → has_identity id (hs ++ h ∷ []) ≡ (has_identity id hs || (handler_identity h == id))
unfolding has_identity
has_identity-append id [] h = ground arith
has_identity-append id (x ∷ hs) h = ground (arith, has_identity-append id hs h)

without-append :
    (hs : List (Option Handler)) (h : Option Handler)
    → has_identity (handler_identity h) hs ≡ false
    → without (handler_identity h) (hs ++ h ∷ []) ≡ hs
unfolding without has_identity
without-append [] h e = ground arith
without-append (x ∷ hs) h e = ground (arith, without-append hs h)

-- No two handlers of a list have one code pointer.
abbrev pub IsDistinct : List (Option Handler) → Type 0
IsDistinct [] = Unit
IsDistinct (h ∷ hs) = (has_identity (handler_identity h) hs ≡ false) × IsDistinct hs

-- `addEventHandlerLocked` appends the handler to the list of its event, unless that list has a
-- handler with its code pointer, and leaves the lists of all other events alone.
pub handlers_of-add :
    (event k : Text) (h : Option Handler) (callbacks : Callbacks)
    → handlers_of k (add_event_handler_locked event h callbacks) ≡ (
        if same event k && not (has_identity (handler_identity h) (handlers_of event callbacks))
        then handlers_of event callbacks ++ h ∷ []
        else handlers_of k callbacks)
unfolding add_event_handler_locked
handlers_of-add event k h callbacks =
    ground (arith, lookup-insert event k (handlers_of event callbacks ++ h ∷ []) callbacks)

without_nil : (id : ℕ) → without id [] ≡ []
unfolding without
without_nil id = refl

without_absent : (id : ℕ) (hs : List (Option Handler)) → has_identity id (without id hs) ≡ false
unfolding without has_identity
without_absent id [] = refl
without_absent id (x ∷ hs) = ground (arith, without_absent id hs)

same_event :
    (event k : Text) (callbacks : Callbacks)
    → same event k ≡ true
    → handlers_of event callbacks ≡ handlers_of k callbacks
same_event event k callbacks e = ap (λ (j : Text). handlers_of j callbacks) ((same_iff event k).0 e)

handlers_of-remove_from :
    (event k : Text) (h : Handler) (hs : List (Option Handler)) (callbacks : Callbacks)
    → handlers_of k (remove_from event (some h) hs callbacks)
      ≡ (if same event k then without (handler_identity (some h)) hs else handlers_of k callbacks)
unfolding remove_from
handlers_of-remove_from event k h hs callbacks = ground (
  arith,
  lookup-delete event k callbacks,
  lookup-insert event k (without (handler_identity (some h)) hs) callbacks,
)

-- `removeEventHandlerLocked` with a handler takes the handlers with its code pointer out of the
-- list of the event, and leaves all other events alone.
pub handlers_of-remove :
    (event k : Text) (h : Handler) (c : SocketChannel)
    → handlers_of k (remove_event_handler_locked event (some h) c).0 ≡ (
        if same event k
        then without (handler_identity (some h)) (handlers_of event c.event_callbacks)
        else handlers_of k c.event_callbacks)
unfolding remove_event_handler_locked remove_from
handlers_of-remove event k h c = elim (Option-cases (lookup event c.event_callbacks)) [
  | inl e ↦
      rw (e, remove_event_handler_locked)
        (ground
          (arith, same_event event k c.event_callbacks, without_nil (handler_identity (some h))))
  | inr (hs, e) ↦
      rw (e, remove_event_handler_locked) (handlers_of-remove_from event k h hs c.event_callbacks)
]

-- Adding a handler whose code pointer the event lacks, and removing it, leaves every event with
-- its handlers.
pub remove-add :
    (event k : Text) (h : Handler) (c : SocketChannel)
    → has_identity (handler_identity (some h)) (handlers_of event c.event_callbacks) ≡ false
    → let added = add_event_handler_locked event (some h) c.event_callbacks in
      handlers_of k
        (remove_event_handler_locked event (some h) (record c { event_callbacks = added })).0
      ≡ handlers_of k c.event_callbacks
remove-add event k h c absent =
    handlers_of-remove event k h _
    ∙ rw
        (
          handlers_of-add event event (some h) c.event_callbacks,
          handlers_of-add event k (some h) c.event_callbacks,
          absent,
        )
        (ground (
          arith,
          same_refl event,
          without-append (handlers_of event c.event_callbacks) (some h) absent,
          same_event event k c.event_callbacks,
        ))

add-has_identity :
    (event : Text) (h : Option Handler) (callbacks : Callbacks)
    → has_identity
        (handler_identity h)
        (handlers_of event (add_event_handler_locked event h callbacks))
      ≡ true
add-has_identity event h callbacks =
    rw (handlers_of-add event event h callbacks, same_refl event)
      (ground (arith, has_identity-append (handler_identity h) (handlers_of event callbacks) h))

add_present :
    (event : Text) (h : Option Handler) (callbacks : Callbacks)
    → has_identity (handler_identity h) (handlers_of event callbacks) ≡ true
    → add_event_handler_locked event h callbacks ≡ callbacks
unfolding add_event_handler_locked
add_present event h callbacks e = rw e

-- A closure is dropped if the event has one of the same function literal.
pub add_same_code :
    (event : Text) (g h : Handler) (callbacks : Callbacks)
    → g.code ≡ h.code
    → let added = add_event_handler_locked event (some g) callbacks in
      add_event_handler_locked event (some h) added ≡ added
unfolding handler_identity
add_same_code event g h callbacks e =
    add_present event (some h) (add_event_handler_locked event (some g) callbacks)
      (rw (← e) (add-has_identity event (some g) callbacks))

IsDistinct-append :
    (hs : List (Option Handler)) (h : Option Handler)
    → IsDistinct hs
    → has_identity (handler_identity h) hs ≡ false
    → IsDistinct (hs ++ h ∷ [])
unfolding has_identity
IsDistinct-append [] h d e = (refl, tt)
IsDistinct-append (x ∷ hs) h d e = (
  has_identity-append (handler_identity x) hs h ∙ ground arith,
  IsDistinct-append hs h d.1 (ground arith),
)

-- So no event ever has two handlers with one code pointer.
add-IsDistinct :
    (event k : Text) (h : Option Handler) (callbacks : Callbacks)
    → ((j : Text) → IsDistinct (handlers_of j callbacks))
    → IsDistinct (handlers_of k (add_event_handler_locked event h callbacks))
add-IsDistinct event k h callbacks d =
    rw (handlers_of-add event k h callbacks)
      (ground (arith, d event, d k, IsDistinct-append (handlers_of event callbacks) h (d event)))

-- ===== src/Channel/Handlers.antt =====
-- Handlers by event name: `addEventHandlerLocked`, `removeEventHandlerLocked`, `hasCallbackLocked`
-- and `handlerIdentity` of channel/socket.go.
use qpub_go.Prelude.{
  ℕ, suc, Bool, false, not, ◌&&◌, ◌||◌, Option, none, some, List, [], ◌∷◌, ◌++◌, ◌==◌,
  if◌then◌else◌, is_nil, is_some,
}
use qpub_go.Prelude.Text.{Text}
use qpub_go.Prelude.Dict.{Dict, lookup, insert, delete}
use qpub_go.Channel.Types.{Handler, SocketChannel}

abbrev pub Callbacks : Type 0
Callbacks = Dict (List (Option Handler))

-- `reflect.ValueOf(h).Pointer()`: the code pointer, the same for all closures of one literal.
unfoldable pub handler_identity : Option Handler → ℕ
handler_identity none = 0
handler_identity (some h) = suc h.code

-- A missing key of a Go map reads as the nil slice.
abbrev pub list_or_nil : Option (List (Option Handler)) → List (Option Handler)
list_or_nil none = []
list_or_nil (some l) = l

unfoldable pub has_identity : ℕ → List (Option Handler) → Bool
has_identity id [] = false
has_identity id (h ∷ hs) = (handler_identity h == id) || has_identity id hs

unfoldable pub add_event_handler_locked : Text → Option Handler → Callbacks → Callbacks
add_event_handler_locked event handler callbacks =
    let hs = list_or_nil (lookup event callbacks) in
    if has_identity (handler_identity handler) hs
    then callbacks
    else insert event (hs ++ handler ∷ []) callbacks

-- The loop that keeps the handlers with another identity.
unfoldable pub without : ℕ → List (Option Handler) → List (Option Handler)
without id [] = []
without id (h ∷ hs) = if handler_identity h == id then without id hs else h ∷ without id hs

unfoldable pub remove_from : Text → Option Handler → List (Option Handler) → Callbacks → Callbacks
remove_from event none hs callbacks = delete event callbacks
remove_from event (some h) hs callbacks =
    let filtered = without (handler_identity (some h)) hs in
    if is_nil filtered then delete event callbacks else insert event filtered callbacks

abbrev pub has_callback_locked : SocketChannel → Bool
has_callback_locked c = is_some c.catch_all_handler || not (is_nil c.event_callbacks)

-- The new callbacks, and whether an UNSUBSCRIBE has to be sent.
unfoldable pub remove_event_handler_locked :
    Text → Option Handler → SocketChannel → Callbacks × Bool
remove_event_handler_locked event handler c = elim (lookup event c.event_callbacks) [
  | none ↦ (c.event_callbacks, false)
  | some hs ↦
      let callbacks = remove_from event handler hs c.event_callbacks in
      (callbacks, is_nil callbacks && not (is_some c.catch_all_handler) && c.subscribed)
]
